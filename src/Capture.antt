-- ===== src/Capture.antt =====
-- include/efe/capture.hpp and src/capture.cpp: the files of recorded datagrams.
-- A file is the list of its bytes. Writes to it do not fail here; a read past its end does.
pub mod Fields
pub mod RoundTrip
use market_wire.Prelude.{
  ℕ, zero, suc, ◌+◌, ◌*◌, ◌/◌, ◌%◌, ◌^◌, bit_and, bit_or, Option, none, some, List, [], ◌∷◌, ◌++◌,
  ltb, if◌then◌else◌, length, take, drop, not,
}
use market_wire.Prelude.Result.{
  Result, ok, throw, undefined, Failure, ◌>>=◌, datagram_too_large, not_a_capture, truncated_length,
  truncated_timestamp, length_exceeds_limit, truncated_payload,
}
use market_wire.Wire.{ByteList, at, read_loop, bytes_equal}

pub record CaptureRecord : Type 0 where
  pub monotonic_ns : ℕ
  pub datagram : ByteList

abbrev pub max_datagram_size : ℕ
max_datagram_size = 65535

unfoldable pub write_u32 : ByteList → ℕ → ByteList
write_u32 out v =
    out ++ ((v / 2 ^ 24 % 2 ^ 8) ∷ (v / 2 ^ 16 % 2 ^ 8) ∷ (v / 2 ^ 8 % 2 ^ 8) ∷ (v % 2 ^ 8) ∷ [])

-- The bytes that the loop of `write_u64` puts into its array, from `i = n - 1` down to 0.
unfoldable pub u64_bytes : ℕ → ℕ → ByteList
u64_bytes zero v = []
u64_bytes (suc i) v = bit_and (v / 2 ^ (i * 8)) 0xFF ∷ u64_bytes i v

unfoldable pub write_u64 : ByteList → ℕ → ByteList
unfolding u64_bytes
write_u64 out v = out ++ u64_bytes 8 v

-- `in.read(…)` of `n` bytes, and the exception when they are not there
abbrev pub read_bytes : ℕ → Failure → ByteList → Result (ByteList × ByteList)
read_bytes n e in_ = if ltb (length in_) n then throw e else ok (take n in_, drop n in_)

unfoldable pub read_u32 : ByteList → Result (ℕ × ByteList)
read_u32 in_ = do
  (b, rest) ← read_bytes 4 truncated_length in_
  let b0 = at b 0 * 2 ^ 24 % 2 ^ 32
  let b1 = at b 1 * 2 ^ 16 % 2 ^ 32
  let b2 = at b 2 * 2 ^ 8 % 2 ^ 32
  ok (bit_or (bit_or (bit_or b0 b1) b2) (at b 3), rest)

unfoldable pub read_u64 : ByteList → Result (ℕ × ByteList)
unfolding read_loop
read_u64 in_ = do (b, rest) ← read_bytes 8 truncated_timestamp in_; ok (read_loop 8 b 0 0, rest)

abbrev pub magic : ByteList
magic = b'E' ∷ b'F' ∷ b'C' ∷ b'2' ∷ []

-- `CaptureWriter`, which starts the file
unfoldable pub open_writer : ByteList
open_writer = magic

unfoldable pub write : ℕ → ByteList → ByteList → Result ByteList
unfolding write_u32 write_u64
write ns d out =
    if ltb max_datagram_size (length d)
    then throw datagram_too_large
    else ok (write_u32 (write_u64 out ns) (length d % 2 ^ 32) ++ d)

-- `CaptureReader`; what is left of the file is its state.
unfoldable pub open_reader : ByteList → Result ByteList
unfolding bytes_equal
open_reader file =
    if ltb (length file) 4
    then throw not_a_capture
    else if not (bytes_equal (take 4 file) magic)
    then throw not_a_capture
    else ok (drop 4 file)

unfoldable pub read_record : ByteList → Result (CaptureRecord × ByteList)
unfolding read_u32 read_u64
read_record in_ = do
  (ns, in_) ← read_u64 in_
  (len, in_) ← read_u32 in_
  if ltb max_datagram_size len then throw length_exceeds_limit else do
    (d, in_) ← read_bytes len truncated_payload in_
    ok (record { monotonic_ns = ns; datagram = d }, in_)

-- `CaptureReader::next`
unfoldable pub next : ByteList → Result (Option (CaptureRecord × ByteList))
unfolding read_record
next [] = ok none
next (c ∷ in_) = read_record (c ∷ in_) >>= λ r. ok (some r)
