-- ===== src/Mold/Parse.antt =====
-- `MoldUdp64::parse_downstream` reads the wire format of Framing.
use market_wire.Prelude.{
  ℕ, suc, ◌+◌, ◌%◌, ◌^◌, ◌<◌, ◌≤◌, ◌≡◌, refl, sym, ap, ◌∙◌, List, [], ◌∷◌, ◌++◌, arith, false,
  le→leb, length, take, length-append, append-nil, All, All-append, ==_refl,
}
use market_wire.Prelude.Result.{ok}
use market_wire.Mold.Framing.{
  frames, encode_packet, number, Holds, Holds-front, Holds-back, Holds-next, be_field-Holds,
  take-Holds,
}
use market_wire.Mold.{
  MoldDownstreamPacket, read_messages, read_body, read_packet, empty_packet, parse_downstream,
}
use market_wire.Wire.Bytes.{IsByte, to_be, length-to_be, IsByte-to_be}
use market_wire.Wire.Read.{require_bytes_lem, read_u64_be_lem, read_u16_be_lem}
use market_wire.Wire.{ByteList, require_bytes}

pub require-ok :
    (d : ByteList) (offset width : ℕ)
    → offset + width ≤ length d
    → require_bytes d offset width ≡ ok tt
require-ok d offset width room = require_bytes_lem d offset width ∙ rw (le→leb _ _ room)

abbrev pub IsShort : ByteList → Type 0
IsShort m = length m < 65536

read_messages-frames :
    (ms : List ByteList) (d : ByteList) (first i offset : ℕ) {rest : ByteList}
    → All IsByte d
    → All IsShort ms
    → first + i + length ms ≤ 2 ^ 64
    → Holds d offset (frames ms) rest
    → read_messages (length ms) d first i offset
      ≡ ok (number (first + i) ms, offset + length (frames ms))
unfolding read_messages frames number
read_messages-frames [] d first i offset b short fits h = ap (λ n. ok ([], n)) (omega arith)
read_messages-frames (m ∷ ms) d first i offset b short fits h =
    let len = length m in
    let h1 = Holds-front (to_be 2 len) (m ++ frames ms) h in
    let behind : Holds d (offset + 2) (m ++ frames ms) _ =
      rw (length-to_be 2 len) at (Holds-back (to_be 2 len) (m ++ frames ms) h) in
    let h2 = Holds-front m (frames ms) behind in
    let h3 = Holds-back m (frames ms) behind in
    let prefix = require-ok d offset 2 (omega (arith, h1.inside, length-to_be 2 len)) in
    let field = read_u16_be_lem d offset b ∙ be_field-Holds 2 len short.0 h1 in
    let body = require-ok d (offset + 2) len h2.inside in
    let rest_of =
      read_messages-frames ms d first (i + 1) (offset + 2 + len) b short.1 (omega arith) h3 in
    let seq : (first + i) % 2 ^ 64 ≡ first + i = omega arith in
    let next : first + (i + 1) ≡ suc (first + i) = omega arith in
    let end : offset + 2 + len + length (frames ms) ≡ offset + length (frames (m ∷ ms)) = omega (
      arith,
      length-to_be 2 len,
      length-append {0} (to_be 2 len) (m ++ frames ms),
      length-append {0} m (frames ms),
    ) in
    rw (prefix, field, body, rest_of) (rw (seq, take-Holds h2, next, end) refl)

module _ (session : ByteList) (first count : ℕ) (body d : ByteList) (b : All IsByte d)
    (ten : length session ≡ 10)
    (whole : d ≡ session ++ (to_be 8 first ++ (to_be 2 count ++ body))) where
  start : Holds d 0 session (to_be 8 first ++ (to_be 2 count ++ body))
  start = record {
    there = whole;
    inside = omega (
      arith,
      ap length whole,
      length-append {0} session (to_be 8 first ++ (to_be 2 count ++ body)),
    );
  }

  first_at : Holds d 10 (to_be 8 first) (to_be 2 count ++ body)
  first_at = rw ten at (Holds-next (to_be 8 first) (to_be 2 count ++ body) start refl)

  count_at : Holds d 18 (to_be 2 count) body
  count_at = rw (length-to_be 8 first) at (Holds-next (to_be 2 count) body first_at refl)

  body_at : Holds d 20 body []
  body_at = rw (length-to_be 2 count) at (Holds-next body [] count_at (sym (append-nil body)))

  pub size_of : length d ≡ 20 + length body
  size_of = omega (
    arith,
    ap length whole,
    length-append {0} session (to_be 8 first ++ (to_be 2 count ++ body)),
    length-append {0} (to_be 8 first) (to_be 2 count ++ body),
    length-append {0} (to_be 2 count) body,
    length-to_be 8 first,
    length-to_be 2 count,
  )

  -- Behind the header's fields `parse_downstream` goes on with the packet that they make.
  pub parse_downstream-header :
      first < 2 ^ 64
      → count < 2 ^ 16
      → parse_downstream d ≡ read_packet d (empty_packet session first count)
  unfolding parse_downstream
  parse_downstream-header small short =
      let room = require-ok d 0 20 (omega (arith, size_of)) in
      let f = read_u64_be_lem d 10 b ∙ be_field-Holds 8 first small first_at in
      let c = read_u16_be_lem d 18 b ∙ be_field-Holds 2 count short count_at in
      let s : take 10 d ≡ session = rw ten at (take-Holds start) in rw (room, f, c, s)

-- The packet that stands for the data messages `payloads`.
abbrev pub data_packet : ByteList → ℕ → List ByteList → MoldDownstreamPacket
data_packet session first payloads = record {
  session = session;
  first_sequence = first;
  message_count = length payloads;
  heartbeat = false;
  end_of_session = false;
  messages = number first payloads;
}

abbrev pub IsPayload : ByteList → Type 0
IsPayload m = All IsByte m × IsShort m

IsByte-frames : (ms : List ByteList) → All IsPayload ms → All IsByte (frames ms)
unfolding frames
IsByte-frames [] h = tt
IsByte-frames (m ∷ ms) h =
    All-append IsByte (to_be 2 (length m)) _ (IsByte-to_be 2 (length m))
      (All-append IsByte m _ h.0.0 (IsByte-frames ms h.1))

IsByte-encode_packet :
    (session : ByteList) (first : ℕ) (payloads : List ByteList)
    → All IsByte session
    → All IsPayload payloads
    → All IsByte (encode_packet session first payloads)
unfolding encode_packet
IsByte-encode_packet session first payloads s h = All-append IsByte session _ s (
    All-append IsByte (to_be 8 first) _ (IsByte-to_be 8 first) (
      All-append IsByte (to_be 2 (length payloads)) _ (IsByte-to_be 2 (length payloads))
        (IsByte-frames payloads h)))

IsShort-All : (ms : List ByteList) → All IsPayload ms → All IsShort ms
IsShort-All [] h = tt
IsShort-All (m ∷ ms) h = (h.0.1, IsShort-All ms h.1)

-- A count that is no marker, with a range that fits, leads to the messages.
pub read_packet-body :
    (d session : ByteList) (first count : ℕ)
    → 0 < count
    → count < 65535
    → first + count ≤ 2 ^ 64
    → read_packet d (empty_packet session first count)
      ≡ read_body d (empty_packet session first count)
unfolding read_packet empty_packet
read_packet-body d session first count pos small fits = ground arith

-- `parse_downstream` accepts every well-formed data packet: ten session bytes, 1 to 65534 payloads of
-- fewer than 65536 bytes, and a sequence range below 2^64. It returns the payloads in order,
-- numbered from the first sequence number on.
pub parse_downstream-encode_packet :
    (session : ByteList) (first : ℕ) (payloads : List ByteList)
    → length session ≡ 10
    → All IsByte session
    → All IsPayload payloads
    → 0 < length payloads
    → length payloads < 65535
    → first + length payloads ≤ 2 ^ 64
    → parse_downstream (encode_packet session first payloads)
      ≡ ok (data_packet session first payloads)
unfolding read_body empty_packet
parse_downstream-encode_packet session first payloads ten s h some_messages few fits =
    let d = encode_packet session first payloads in
    let b = IsByte-encode_packet session first payloads s h in
    let whole : d ≡ session ++ (to_be 8 first ++ (to_be 2 (length payloads) ++ frames payloads)) =
      unfold encode_packet in refl in
    let header =
      parse_downstream-header session first (length payloads) (frames payloads) d b ten whole
        (omega arith) (omega arith) in
    let at_body = body_at session first (length payloads) (frames payloads) d b ten whole in
    let size = size_of session first (length payloads) (frames payloads) d b ten whole in
    let loop =
      read_messages-frames payloads d first 0 20 b (IsShort-All payloads h) (omega arith) at_body in
    let start : first + 0 ≡ first = omega arith in
    header
    ∙ read_packet-body d session first (length payloads) some_messages few fits
    ∙ rw (loop, start, size) (rw (==_refl (20 + length (frames payloads))) refl)
