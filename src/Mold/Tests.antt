-- ===== src/Mold/Tests.antt =====
-- A session name, a data packet and a rerequest, and the theorems about them.
use market_wire.Prelude.{◌≡◌, refl, inr, List, [], ◌∷◌, ◌++◌, ◌==◌, ◌||◌, arith, if◌then◌else◌}
use market_wire.Prelude.Result.{ok, throw, invalid_request_count, trailing_bytes}
use market_wire.Mold.Accepts.{IsFramed, parse_downstream-IsFramed}
use market_wire.Mold.Framing.{encode_packet, frames, number}
use market_wire.Mold.Parse.{data_packet, parse_downstream-encode_packet}
use market_wire.Mold.Request.{encode_request_lem}
use market_wire.Mold.Session.{session_string-session_from_string}
use market_wire.Mold.{
  MoldDownstreamPacket, MoldRequest, session_string, session_from_string, parse_downstream,
  encode_request,
}
use market_wire.Wire.Bytes.{to_be, splice}
use market_wire.Wire.{ByteList, require_bytes, read_u64_be, read_u16_be}

abbrev demo : ByteList
demo = b'D' ∷ b'E' ∷ b'M' ∷ b'O' ∷ []

abbrev padded : ByteList
padded = demo ++ (b' ' ∷ b' ' ∷ b' ' ∷ b' ' ∷ b' ' ∷ b' ' ∷ [])

pads : session_from_string demo ≡ padded
unfolding session_from_string splice
pads = refl

abbrev payloads : List ByteList
payloads = (1 ∷ 2 ∷ []) ∷ [] ∷ (3 ∷ []) ∷ []

frames_on_the_wire :
    encode_packet padded 7 payloads
    ≡ padded ++ (0 ∷ 0 ∷ 0 ∷ 0 ∷ 0 ∷ 0 ∷ 0 ∷ 7 ∷ 0 ∷ 3 ∷ 0 ∷ 2 ∷ 1 ∷ 2 ∷ 0 ∷ 0 ∷ 0 ∷ 1 ∷ 3 ∷ [])
unfolding encode_packet to_be frames
frames_on_the_wire = refl

abbrev datagram : ByteList
datagram =
    padded ++ (0 ∷ 0 ∷ 0 ∷ 0 ∷ 0 ∷ 0 ∷ 0 ∷ 7 ∷ 0 ∷ 3 ∷ 0 ∷ 2 ∷ 1 ∷ 2 ∷ 0 ∷ 0 ∷ 0 ∷ 1 ∷ 3 ∷ [])

parses : parse_downstream datagram ≡ ok (data_packet padded 7 payloads)
unfolding parse_downstream require_bytes read_u64_be read_u16_be number
parses = refl

rejects_trailing : parse_downstream (datagram ++ (9 ∷ [])) ≡ throw trailing_bytes
unfolding parse_downstream require_bytes read_u64_be read_u16_be number
rejects_trailing = refl

parse_downstream-encode_packet_example :
    parse_downstream (encode_packet padded 7 payloads) ≡ ok (data_packet padded 7 payloads)
parse_downstream-encode_packet_example =
    parse_downstream-encode_packet padded 7 payloads refl (omega arith) (omega arith) (omega arith)
      (omega arith) (omega arith)

parse_downstream-IsFramed_example : IsFramed datagram (data_packet padded 7 payloads)
parse_downstream-IsFramed_example = parse_downstream-IsFramed datagram (omega arith) parses

abbrev request : MoldRequest
request = record { session = padded; first_sequence = 102; message_count = 2 }

encode_request_lem_example : encode_request request ≡ (
    if request.message_count == 0 || request.message_count == 0xFFFF
    then throw invalid_request_count
    else ok (request.session ++ (to_be 8 request.first_sequence ++ to_be 2 request.message_count)))
encode_request_lem_example = encode_request_lem request refl

abbrev named : MoldDownstreamPacket
named = data_packet (session_from_string demo) 7 payloads

session_string-session_from_string_example : session_string named ≡ demo
session_string-session_from_string_example =
    session_string-session_from_string demo named (omega arith) (inr refl) refl
