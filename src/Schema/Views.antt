-- ===== src/Schema/Views.antt =====
-- tools/protocolc/main.cpp: what the header that `emit` writes for a protocol does.
-- A use of a view or of an accessor that the header does not declare does not compile; here it is the
-- failure `no_declaration`.
pub mod Safe
use market_wire.Prelude.{
  ℕ, ◌||◌, not, Option, none, some, List, [], ◌∷◌, ◌==◌, if◌then◌else◌, length,
}
use market_wire.Prelude.Result.{Result, ok, throw, ◌>>=◌, no_declaration, invalid_view}
use market_wire.Prelude.Text.{String, bytes_of}
use market_wire.Schema.Parser.{Field, Message, Protocol}
use market_wire.Wire.{
  ByteList, bytes_equal, at, read_u8, read_u16_be, read_u32_be, read_u48_be, read_u64_be, read_char,
  read_ascii_view,
}

-- `accessor_expr` for a field that is a number: the call that the text makes.
unfoldable pub accessor_number : Field → ByteList → Result ℕ
unfolding bytes_equal bytes_of
accessor_number f bytes =
    if bytes_equal f.type (bytes_of "u8")
    then read_u8 bytes f.offset
    else if bytes_equal f.type (bytes_of "u16_be")
    then read_u16_be bytes f.offset
    else if bytes_equal f.type (bytes_of "u32_be") || bytes_equal f.type (bytes_of "price4")
    then read_u32_be bytes f.offset
    else if bytes_equal f.type (bytes_of "u48_be")
    then read_u48_be bytes f.offset
    else if bytes_equal f.type (bytes_of "u64_be") || bytes_equal f.type (bytes_of "price8")
    then read_u64_be bytes f.offset
    else if bytes_equal f.type (bytes_of "char")
    then read_char bytes f.offset
    else throw no_declaration

-- `accessor_expr` for an ASCII field
unfoldable pub accessor_text : Field → ByteList → Result ByteList
unfolding bytes_equal bytes_of
accessor_text f bytes =
    if bytes_equal f.type (bytes_of "ascii")
    then read_ascii_view bytes f.offset f.width
    else throw no_declaration

-- An object of a message's view class.
pub record View : Type 0 where
  pub message : Message
  pub bytes : ByteList

unfoldable pub message_of : ByteList → List Message → Result Message
unfolding bytes_equal
message_of name [] = throw no_declaration
message_of name (m ∷ messages) = if bytes_equal m.name name then ok m else message_of name messages

unfoldable pub field_of : ByteList → List Field → Result Field
unfolding bytes_equal
field_of name [] = throw no_declaration
field_of name (f ∷ fields) = if bytes_equal f.name name then ok f else field_of name fields

-- The constructor of a view class.
unfoldable pub construct : Message → ByteList → Result View
construct m bytes =
    if not (length bytes == m.size) || not (at bytes 0 == m.type)
    then throw invalid_view
    else ok (record { message = m; bytes = bytes })

unfoldable pub new_view : Protocol → String → ByteList → Result View
unfolding message_of construct bytes_of
new_view p name bytes = message_of (bytes_of name) p.messages >>= λ m. construct m bytes

unfoldable pub number_field : View → String → Result ℕ
unfolding field_of accessor_number bytes_of
number_field v name = field_of (bytes_of name) v.message.fields >>= λ f. accessor_number f v.bytes

unfoldable pub text_field : View → String → Result ByteList
unfolding field_of accessor_text bytes_of
text_field v name = field_of (bytes_of name) v.message.fields >>= λ f. accessor_text f v.bytes

unfoldable pub size_in : ℕ → List Message → Option ℕ
size_in type [] = none
size_in type (m ∷ messages) = if m.type == type then some m.size else size_in type messages

unfoldable pub message_size : Protocol → ℕ → Option ℕ
unfolding size_in
message_size p type = size_in type p.messages

unfoldable pub name_in : ℕ → List Message → ByteList
unfolding bytes_of
name_in type [] = bytes_of "Unknown"
name_in type (m ∷ messages) = if m.type == type then m.name else name_in type messages

unfoldable pub message_name : Protocol → ℕ → ByteList
unfolding name_in
message_name p type = name_in type p.messages
