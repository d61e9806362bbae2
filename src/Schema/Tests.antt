-- ===== src/Schema/Tests.antt =====
-- Schemas that the compiler accepts or rejects, and the theorems about its parser.
use market_wire.Prelude.{◌≡◌, ◌≢◌, refl, [], ◌∷◌, All, arith}
use market_wire.Prelude.Result.{
  ok, throw, undefined, duplicate_field, unterminated_string, unknown_field_type,
}
use market_wire.Prelude.Text.{bytes_of}
use market_wire.Schema.Parser.Layout.{IsWellFormed}
use market_wire.Schema.Parser.Sound.{parse-returns, parse-IsWellFormed}
use market_wire.Schema.Parser.{Message, Protocol, parse}
use market_wire.Schema.Views.Safe.{Reads, construct-Reads}
use market_wire.Schema.Views.{View, construct}
use market_wire.Schema.{is_space}
use market_wire.Wire.{ByteList}

abbrev small : ByteList
small = bytes_of "protocol P; // one message\nmessage M \"m\" { a: u8; b: u16_be; c: ascii[3]; }"

abbrev small_protocol : Protocol
small_protocol = record {
  name = bytes_of "P";
  messages =
      record {
        name = bytes_of "M";
        type = b'm';
        fields =
            record { name = bytes_of "a"; type = bytes_of "u8"; width = 1; offset = 1 }
            ∷ record { name = bytes_of "b"; type = bytes_of "u16_be"; width = 2; offset = 2 }
            ∷ record { name = bytes_of "c"; type = bytes_of "ascii"; width = 3; offset = 4 }
            ∷ [];
        size = 7;
      }
      ∷ [];
}

lays_out : parse small ≡ ok small_protocol
unfolding parse bytes_of is_space
lays_out = refl

rejects_duplicate :
    parse (bytes_of "protocol P; message M \"m\" { a: u8; a: u8; }") ≡ throw duplicate_field
unfolding parse bytes_of is_space
rejects_duplicate = refl

rejects_type : parse (bytes_of "protocol P; message M \"m\" { a: u7; }") ≡ throw unknown_field_type
unfolding parse bytes_of is_space
rejects_type = refl

rejects_string : parse (bytes_of "protocol P; message M \"m") ≡ throw unterminated_string
unfolding parse bytes_of is_space
rejects_string = refl

parse-returns_example : parse small ≢ undefined
parse-returns_example = parse-returns small

parse-IsWellFormed_example : IsWellFormed small_protocol
parse-IsWellFormed_example = parse-IsWellFormed small small_protocol lays_out

abbrev message : Message
message = record {
  name = bytes_of "M";
  type = b'm';
  fields =
      record { name = bytes_of "a"; type = bytes_of "u8"; width = 1; offset = 1 }
      ∷ record { name = bytes_of "b"; type = bytes_of "u16_be"; width = 2; offset = 2 }
      ∷ record { name = bytes_of "c"; type = bytes_of "ascii"; width = 3; offset = 4 }
      ∷ [];
  size = 7;
}

abbrev view : View
view = record { message = message; bytes = b'm' ∷ 1 ∷ 0 ∷ 2 ∷ 65 ∷ 66 ∷ 67 ∷ [] }

constructs : construct message view.bytes ≡ ok view
unfolding construct
constructs = refl

construct-Reads_example : All (Reads view.bytes) message.fields
construct-Reads_example =
    construct-Reads message view.bytes view
      ((parse-IsWellFormed small small_protocol lays_out).messages.0) (omega arith) constructs
