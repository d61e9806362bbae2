-- ===== src/Schema.antt =====
-- tools/protocolc/main.cpp: the compiler of message schemas. Here is its lexer.
-- The lexer's state is the input from `pos_` on, and the line. A line number counts bytes of a text in
-- memory, so it does not wrap. <cctype> is that of the "C" locale.
pub mod Parser
pub mod Text
pub mod Itch50
pub mod Views
mod Tests
use market_wire.Prelude.{
  ℕ, ◌+◌, Bool, true, false, ◌&&◌, ◌||◌, List, [], ◌∷◌, leb, ◌==◌, if◌then◌else◌,
}
use market_wire.Prelude.Result.{
  Result, ok, throw, ◌>>=◌, unexpected_character, newline_in_string, unterminated_string,
}
use market_wire.Wire.{ByteList}

pub data Kind : Type 0 where
  ident string number lbrace rbrace lbracket rbracket colon semicolon end : Kind

pub record Token : Type 0 where
  pub kind : Kind
  pub text : ByteList
  pub line : ℕ

pub record Lexer : Type 0 where
  pub rest : ByteList
  pub line : ℕ

abbrev pub newline : ℕ
newline = 10

-- `std::isspace`, `std::isdigit`, `std::isalpha`
unfoldable pub is_space : ℕ → Bool
is_space c = c == 32 || (leb 9 c && leb c 13)

unfoldable pub is_digit : ℕ → Bool
is_digit c = leb b'0' c && leb c b'9'

unfoldable pub is_alpha : ℕ → Bool
is_alpha c = (leb b'a' c && leb c b'z') || (leb b'A' c && leb c b'Z')

unfoldable pub is_word : ℕ → Bool
unfolding is_alpha is_digit
is_word c = is_alpha c || is_digit c || c == b'_'

-- `skip_ws_comments`, outside a comment and inside one
unfoldable mutual
  pub skip : ByteList → ℕ → Lexer
  skip [] line = record { rest = []; line = line }
  skip (c ∷ rest) line = elim (c == newline) [
    | true ↦ skip rest (line + 1)
    | false ↦ elim (is_space c) [
      | true ↦ skip rest line
      | false ↦ elim (c == b'/') [
        | true ↦ skip_slash c rest line
        | false ↦ record { rest = c ∷ rest; line = line }
      ]
    ]
  ]

  -- Behind a first slash.
  pub skip_slash : ℕ → ByteList → ℕ → Lexer
  skip_slash c [] line = record { rest = c ∷ []; line = line }
  skip_slash c (d ∷ rest) line = elim (d == b'/') [
    | true ↦ skip_comment rest line
    | false ↦ record { rest = c ∷ d ∷ rest; line = line }
  ]

  pub skip_comment : ByteList → ℕ → Lexer
  skip_comment [] line = record { rest = []; line = line }
  skip_comment (c ∷ rest) line = elim (c == newline) [
    | true ↦ skip rest (line + 1)
    | false ↦ skip_comment rest line
  ]

-- The longest run of bytes that pass the test, and what follows it.
unfoldable pub span : (ℕ → Bool) → ByteList → ByteList × ByteList
span test [] = ([], [])
span test (c ∷ rest) =
    let more = span test rest in if test c then (c ∷ more.0, more.1) else ([], c ∷ rest)

-- From behind the opening quote: the string, and what follows its closing quote.
unfoldable pub string_body : ByteList → Result (ByteList × ByteList)
string_body [] = throw unterminated_string
string_body (c ∷ rest) = elim (c == b'"') [
  | true ↦ ok ([], rest)
  | false ↦ elim (c == newline) [
    | true ↦ throw newline_in_string
    | false ↦ string_body rest >>= λ (out, after). ok (c ∷ out, after)
  ]
]

unfoldable pub make : Kind → ByteList → ByteList → ℕ → Token × Lexer
make kind text rest line =
    (record { kind = kind; text = text; line = line }, record { rest = rest; line = line })

-- `ident_token` and `number_token`: the first byte is taken without a test.
unfoldable pub span_token : Kind → (ℕ → Bool) → ℕ → ByteList → ℕ → Token × Lexer
unfolding span make
span_token kind test c rest line =
    let (run, after) = span test rest in make kind (c ∷ run) after line

unfoldable pub string_token : ByteList → ℕ → Result (Token × Lexer)
unfolding string_body make
string_token rest line = string_body rest >>= λ (out, after). ok (make string out after line)

-- `next` at the first byte of a token
unfoldable pub token_at : ℕ → ByteList → ℕ → Result (Token × Lexer)
unfolding make span_token string_token is_digit is_alpha is_word
token_at c rest line =
    if c == b'{'
    then ok (make lbrace (c ∷ []) rest line)
    else if c == b'}'
    then ok (make rbrace (c ∷ []) rest line)
    else if c == b'['
    then ok (make lbracket (c ∷ []) rest line)
    else if c == b']'
    then ok (make rbracket (c ∷ []) rest line)
    else if c == b':'
    then ok (make colon (c ∷ []) rest line)
    else if c == b';'
    then ok (make semicolon (c ∷ []) rest line)
    else if c == b'"'
    then string_token rest line
    else if is_digit c
    then ok (span_token number is_digit c rest line)
    else if is_alpha c || c == b'_'
    then ok (span_token ident is_word c rest line)
    else throw unexpected_character

unfoldable pub token_in : ByteList → ℕ → Result (Token × Lexer)
unfolding token_at make
token_in [] line = ok (make end [] [] line)
token_in (c ∷ rest) line = token_at c rest line

-- `Lexer::next`
unfoldable pub next : Lexer → Result (Token × Lexer)
unfolding skip token_in
next lexer = let at = skip lexer.rest lexer.line in token_in at.rest at.line
