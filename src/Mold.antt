-- ===== src/Mold.antt =====
-- include/efe/moldudp64.hpp and src/moldudp64.cpp: the MoldUDP64 downstream framing and the
-- rerequest packet.
pub mod Session
pub mod Framing
pub mod Parse
pub mod Sound
pub mod Accepts
pub mod Request
mod Tests
use market_wire.Prelude.{
  ℕ, zero, suc, ◌+◌, ◌-◌, ◌*◌, ◌%◌, ◌^◌, Bool, true, false, List, [], ◌∷◌, ◌++◌, ltb, ◌==◌, ◌||◌,
  if◌then◌else◌, length, get_or, take, drop, replicate, min,
}
use market_wire.Prelude.Result.{
  Result, ok, throw, heartbeat_trailing, end_of_session_trailing, sequence_range_overflows,
  trailing_bytes, invalid_request_count, ◌>>=◌, ◌>>◌,
}
use market_wire.Wire.Bytes.{splice}
use market_wire.Wire.{
  ByteList, at, require_bytes, read_u16_be, read_u64_be, write_u16_be, write_u64_be,
}

-- A `Sequence` is an unsigned 64-bit number.
abbrev pub sequence_mod : ℕ
sequence_mod = 2 ^ 64

abbrev pub max_sequence : ℕ
max_sequence = 2 ^ 64 - 1

pub record MoldMessage : Type 0 where
  pub sequence : ℕ
  pub payload : ByteList

-- `std::array<char, 10>` is its ten bytes.
pub record MoldDownstreamPacket : Type 0 where
  pub session : ByteList
  pub first_sequence : ℕ
  pub message_count : ℕ
  pub heartbeat : Bool
  pub end_of_session : Bool
  pub messages : List MoldMessage

pub record MoldRequest : Type 0 where
  pub session : ByteList
  pub first_sequence : ℕ
  pub message_count : ℕ

-- `while (n && (session[n - 1] == ' ' || session[n - 1] == '\0')) --n;`
pub trimmed_length : ℕ → ByteList → ℕ
trimmed_length zero session = 0
trimmed_length (suc n) session =
    let shorter = trimmed_length n session in
    if at session n == b' ' || at session n == 0 then shorter else suc n

pub session_string : MoldDownstreamPacket → ByteList
unfolding trimmed_length
session_string p = take (trimmed_length 10 p.session) p.session

unfoldable pub session_from_string : ByteList → ByteList
session_from_string value = splice 0 (take (min (length value) 10) value) (replicate 10 b' ')

pub message_at : ℕ → ℕ → ByteList → MoldMessage
message_at first i payload = record { sequence = (first + i) % sequence_mod; payload = payload }

-- The loop over the messages, for the rounds that are left; it returns the final offset too.
-- `i` stays below `message_count`, so its 16 bits do not wrap.
pub read_messages : ℕ → ByteList → ℕ → ℕ → ℕ → Result (List MoldMessage × ℕ)
unfolding message_at
read_messages zero d first i offset = ok ([], offset)
read_messages (suc n) d first i offset = do
  require_bytes d offset 2
  len ← read_u16_be d offset
  require_bytes d (offset + 2) len
  let message = message_at first i (take len (drop (offset + 2) d))
  (rest, final) ← read_messages n d first (i + 1) (offset + 2 + len)
  ok (message ∷ rest, final)

pub empty_packet : ByteList → ℕ → ℕ → MoldDownstreamPacket
empty_packet session first count = record {
  session = session;
  first_sequence = first;
  message_count = count;
  heartbeat = false;
  end_of_session = false;
  messages = [];
}

pub read_body : ByteList → MoldDownstreamPacket → Result MoldDownstreamPacket
unfolding read_messages
read_body d out = do
  (messages, offset) ← read_messages out.message_count d out.first_sequence 0 20
  if offset == length d then ok (record out { messages = messages }) else throw trailing_bytes

pub read_packet : ByteList → MoldDownstreamPacket → Result MoldDownstreamPacket
unfolding read_body
read_packet d out =
    if out.message_count == 0
    then (if length d == 20 then ok (record out { heartbeat = true }) else throw heartbeat_trailing)
    else if out.message_count == 0xFFFF
    then (if length d == 20
        then ok (record out { end_of_session = true })
        else throw end_of_session_trailing)
    else if ltb (max_sequence - (out.message_count - 1)) out.first_sequence
    then throw sequence_range_overflows
    else read_body d out

unfoldable pub parse_downstream : ByteList → Result MoldDownstreamPacket
unfolding read_packet empty_packet
parse_downstream d = do
  require_bytes d 0 20
  first ← read_u64_be d 10
  count ← read_u16_be d 18
  read_packet d (empty_packet (take 10 d) first count)

unfoldable pub encode_request : MoldRequest → Result ByteList
encode_request r =
    if r.message_count == 0 || r.message_count == 0xFFFF then throw invalid_request_count else do
      let out = splice 0 (take 10 r.session) (replicate 20 0)
      out ← write_u64_be out 10 r.first_sequence
      write_u16_be out 18 r.message_count
