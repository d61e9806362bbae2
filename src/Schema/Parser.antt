-- ===== src/Schema/Parser.antt =====
-- tools/protocolc/main.cpp: the parser of schemas, which lays out each message as it reads it.
pub mod Layout
pub mod Progress
pub mod Fields
pub mod Sound
use market_wire.Prelude.{
  ℕ, zero, suc, ◌+◌, ◌-◌, ◌*◌, ◌%◌, ◌^◌, Bool, true, false, ◌||◌, List, [], ◌∷◌, ◌++◌, ltb, ◌==◌,
  if◌then◌else◌, length, get_or,
}
use market_wire.Prelude.Result.{
  Result, ok, throw, undefined, Failure, unexpected_token, wrong_keyword, bad_message_type,
  duplicate_type, duplicate_message, duplicate_field, zero_width, bad_number, unknown_field_type,
}
use market_wire.Prelude.Text.{bytes_of}
use market_wire.Schema.{
  Kind, ident, string, number, lbrace, rbrace, lbracket, rbracket, colon, semicolon, end, Token,
  Lexer, next,
}
use market_wire.Wire.{ByteList, bytes_equal}

pub record Field : Type 0 where
  pub name : ByteList
  pub type : ByteList
  pub width : ℕ
  pub offset : ℕ

pub record Message : Type 0 where
  pub name : ByteList
  pub type : ℕ
  pub fields : List Field
  pub size : ℕ

pub record Protocol : Type 0 where
  pub name : ByteList
  pub messages : List Message

pub record Parser : Type 0 where
  pub lexer : Lexer
  pub current : Token

-- A method of the parser; `undefined` is a loop that runs out of fuel.
abbrev pub Parse : Type 0 → Type 0
Parse A = Parser → Result (A × Parser)

abbrev pub pure : {A : Type 0} → A → Parse A
pure a p = ok (a, p)

abbrev pub after : {A B : Type 0} → Result (A × Parser) → (A → Parse B) → Result (B × Parser)
after (ok (a, p)) rest = rest a p
after (throw e) rest = throw e
after undefined rest = undefined

infixl 5 ◌>>=◌ ◌>>◌
abbrev pub ◌>>=◌ : {A B : Type 0} → Parse A → (A → Parse B) → Parse B
◌>>=◌ method rest p = after (method p) rest

abbrev pub ◌>>◌ : {A B : Type 0} → Parse A → Parse B → Parse B
method >> rest = method >>= λ _. rest

-- `Parser::fail`; the line in the exception's text is not modelled.
abbrev pub fail : {A : Type 0} → Failure → Parse A
fail e p = throw e

-- `if (test) fail(…);`
abbrev pub fail_if : Bool → Failure → Parse (Unit {0})
fail_if test e = if test then fail e else pure tt

abbrev pub kind_number : Kind → ℕ
kind_number ident = 0
kind_number string = 1
kind_number number = 2
kind_number lbrace = 3
kind_number rbrace = 4
kind_number lbracket = 5
kind_number rbracket = 6
kind_number colon = 7
kind_number semicolon = 8
kind_number end = 9

abbrev pub same_kind : Kind → Kind → Bool
same_kind j k = kind_number j == kind_number k

-- `out = current_; current_ = lexer_.next();`
abbrev pub advance : Token → Result (Token × Lexer) → Result (Token × Parser)
advance out (ok (current, lexer)) = ok (out, record { lexer = lexer; current = current })
advance out (throw e) = throw e
advance out undefined = undefined

unfoldable pub expect : Kind → Parse Token
unfolding next
expect kind p =
    if same_kind p.current.kind kind
    then advance p.current (next p.lexer)
    else throw unexpected_token

unfoldable pub expect_ident : ByteList → Parse (Unit {0})
unfolding expect bytes_equal
expect_ident text = do
  token ← expect ident
  if bytes_equal token.text text then pure tt else fail wrong_keyword

-- `std::stoul` on the digits of a number token
unfoldable pub decimal : ℕ → ByteList → ℕ
decimal value [] = value
decimal value (c ∷ digits) = decimal (value * 10 + (c - b'0')) digits

unfoldable pub stoul : ByteList → Parse ℕ
unfolding decimal
stoul text =
    let value = decimal 0 text in if ltb value (2 ^ 64) then pure value else fail bad_number

unfoldable pub type_width : ByteList → Parse ℕ
unfolding bytes_equal bytes_of
type_width type =
    if bytes_equal type (bytes_of "u8") || bytes_equal type (bytes_of "char")
    then pure 1
    else if bytes_equal type (bytes_of "u16_be")
    then pure 2
    else if bytes_equal type (bytes_of "u32_be") || bytes_equal type (bytes_of "price4")
    then pure 4
    else if bytes_equal type (bytes_of "u48_be")
    then pure 6
    else if bytes_equal type (bytes_of "u64_be") || bytes_equal type (bytes_of "price8")
    then pure 8
    else fail unknown_field_type

-- `ascii[N]`, from the bracket on
unfoldable pub ascii_width : Parse ℕ
unfolding expect stoul
ascii_width = do
  expect lbracket
  digits ← expect number
  width ← stoul digits.text
  expect rbracket
  fail_if (width == 0) zero_width
  pure width

unfoldable pub field_width : ByteList → Parse ℕ
unfolding ascii_width type_width bytes_of
field_width type = if bytes_equal type (bytes_of "ascii") then ascii_width else type_width type

unfoldable pub field_named : ByteList → List Field → Bool
unfolding bytes_equal
field_named name [] = false
field_named name (f ∷ fields) = bytes_equal name f.name || field_named name fields

unfoldable pub message_named : ByteList → List Message → Bool
unfolding bytes_equal
message_named name [] = false
message_named name (m ∷ messages) = bytes_equal name m.name || message_named name messages

unfoldable pub message_typed : ℕ → List Message → Bool
message_typed type [] = false
message_typed type (m ∷ messages) = type == m.type || message_typed type messages

-- `m` with one more field: `field_names` are the names of its fields, `m.size` the next offset.
unfoldable pub add_field : Message → Field → Message
add_field m f = record m { fields = m.fields ++ (f ∷ []); size = (m.size + f.width) % 2 ^ 64 }

unfoldable pub parse_field : Message → Parse Message
unfolding expect field_width field_named add_field
parse_field m = do
  name ← expect ident
  fail_if (field_named name.text m.fields) duplicate_field
  expect colon
  type ← expect ident
  width ← field_width type.text
  expect semicolon
  pure (add_field m (record { name = name.text; type = type.text; width = width; offset = m.size }))

-- Both loops take as fuel two more than the bytes that are left.
unfoldable pub parse_fields : ℕ → Message → Parse Message
unfolding parse_field
parse_fields zero m p = undefined
parse_fields (suc fuel) m p = elim (same_kind p.current.kind rbrace) [
  | true ↦ ok (m, p)
  | false ↦ after (parse_field m p) (parse_fields fuel)
]

abbrev pub not_one : ℕ → Bool
not_one n = if n == 1 then false else true

abbrev pub fuel_of : Parser → ℕ
fuel_of p = length p.lexer.rest + 2

unfoldable pub parse_all_fields : Message → Parse Message
unfolding parse_fields
parse_all_fields m p = parse_fields (fuel_of p) m p

-- `message_types` and `message_names` are those of the messages so far.
unfoldable pub parse_message : Protocol → Parse Protocol
unfolding expect expect_ident parse_all_fields message_named message_typed bytes_of
parse_message protocol = do
  expect_ident (bytes_of "message")
  name ← expect ident
  type ← expect string
  fail_if (not_one (length type.text)) bad_message_type
  fail_if (message_typed (get_or type.text 0 0) protocol.messages) duplicate_type
  fail_if (message_named name.text protocol.messages) duplicate_message
  expect lbrace
  m ←
      parse_all_fields
        (record { name = name.text; type = get_or type.text 0 0; fields = []; size = 1 })
  expect rbrace
  pure (record protocol { messages = protocol.messages ++ (m ∷ []) })

unfoldable pub parse_messages : ℕ → Protocol → Parse Protocol
unfolding parse_message
parse_messages zero protocol p = undefined
parse_messages (suc fuel) protocol p = elim (same_kind p.current.kind end) [
  | true ↦ ok (protocol, p)
  | false ↦ after (parse_message protocol p) (parse_messages fuel)
]

unfoldable pub parse_all_messages : Protocol → Parse Protocol
unfolding parse_messages
parse_all_messages protocol p = parse_messages (fuel_of p) protocol p

-- `Parser::parse`
unfoldable pub parse_protocol : Parse Protocol
unfolding expect expect_ident parse_all_messages bytes_of
parse_protocol = do
  expect_ident (bytes_of "protocol")
  name ← expect ident
  expect semicolon
  parse_all_messages (record { name = name.text; messages = [] })

abbrev pub result_of : Result (Protocol × Parser) → Result Protocol
result_of (ok (protocol, p)) = ok protocol
result_of (throw e) = throw e
result_of undefined = undefined

abbrev pub start : Result (Token × Lexer) → Result (Protocol × Parser)
start (ok (current, lexer)) = parse_protocol (record { lexer = lexer; current = current })
start (throw e) = throw e
start undefined = undefined

-- `Parser(source).parse()`
unfoldable pub parse : ByteList → Result Protocol
unfolding parse_protocol next
parse source = result_of (start (next (record { rest = source; line = 1 })))
