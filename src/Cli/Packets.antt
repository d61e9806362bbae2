-- ===== src/Cli/Packets.antt =====
-- `mold_packet` writes the MoldUDP64 format, and the parser reads its packets back.
use market_wire.Prelude.{
  ℕ, zero, suc, ◌+◌, ◌-◌, ◌*◌, ◌/◌, ◌%◌, ◌^◌, ◌<◌, ◌≤◌, ◌≡◌, refl, ap, ◌∙◌, sym, List, [], ◌∷◌,
  ◌++◌, length, set, replicate, drop, take, min, arith, All, length-append, length-replicate,
  append_assoc, length-take,
}
use market_wire.Prelude.Result.{ok}
use market_wire.Cli.{
  put_loop, put_u64, put_u16, padded_char, put_chars, packet_size, put_messages, mold_packet,
}
use market_wire.Cli.Messages.{chars, chars_lem}
use market_wire.Mold.{session_from_string, parse_downstream}
use market_wire.Mold.Framing.{frames, encode_packet}
use market_wire.Mold.Parse.{data_packet, parse_downstream-encode_packet, IsPayload}
use market_wire.Wire.Bytes.{
  IsByte, to_be, splice, splice-append, splice_fits, length-to_be, pow_eight,
}
use market_wire.Wire.Read.{IsByte-at}
use market_wire.Wire.{ByteList}

-- Each writer replaces a piece of the buffer.
put_loop-splice :
    (top n : ℕ) (b : ByteList) (off v : ℕ)
    → n ≤ suc top
    → put_loop top n b off v ≡ splice (off + (suc top - n)) (to_be n v) b
unfolding put_loop splice to_be
put_loop-splice top zero b off v h = refl
put_loop-splice top (suc i) b off v h =
    let e : off + (top - i) ≡ off + (suc top - suc i) = omega arith in
    let j : off + (suc top - suc i) + 1 ≡ off + (suc top - i) = omega arith in
    let byte : v / 2 ^ (i * 8) % 2 ^ 8 ≡ v / 256 ^ i % 256 = rw pow_eight refl in
    put_loop-splice top i (set b (off + (top - i)) (v / 2 ^ (i * 8) % 2 ^ 8)) off v (omega arith)
    ∙ cc

put_u64-splice : (b : ByteList) (off v : ℕ) → put_u64 b off v ≡ splice off (to_be 8 v) b
unfolding put_u64
put_u64-splice b off v =
    let start : off + 0 ≡ off = omega arith in
    put_loop-splice 7 8 b off v (omega arith) ∙ rw start refl

put_u16-splice : (b : ByteList) (off v : ℕ) → put_u16 b off v ≡ splice off (to_be 2 v) b
unfolding put_u16 splice to_be
put_u16-splice b off v = let low : v % 2 ^ 8 ≡ v / 1 % 256 = omega arith in rw low refl

put_chars-splice :
    (n i : ℕ) (b : ByteList) (off : ℕ) (s : ByteList)
    → put_chars n i b off s ≡ splice (off + i) (chars n i s) b
unfolding put_chars splice chars
put_chars-splice zero i b off s = refl
put_chars-splice (suc n) i b off s =
    let up : i + 1 ≡ suc i = omega arith in
    let next : off + suc i ≡ off + i + 1 = omega arith in
    put_chars-splice n (i + 1) (set b (off + i) (padded_char s i)) off s ∙ rw (up, next) refl

abbrev zeros : ℕ → ByteList
zeros n = replicate n 0

zeros-add : (a b : ℕ) → zeros (a + b) ≡ zeros a ++ zeros b
zeros-add zero b = let none : 0 + b ≡ b = omega arith in rw none refl
zeros-add (suc a) b =
    let one : suc a + b ≡ suc (a + b) = omega arith in rw one (ap (λ t. 0 ∷ t) (zeros-add a b))

-- Writing the next piece of a buffer that is filled from the front.
fill :
    (pre xs : ByteList) (off k n : ℕ)
    → off ≡ length pre
    → k ≡ length xs + n
    → splice off xs (pre ++ zeros k) ≡ (pre ++ xs) ++ zeros n
fill pre xs off k n at_end size =
    rw (at_end, size, zeros-add)
      (splice-append xs pre (zeros (length xs)) (zeros n) (length-replicate (length xs) 0)
        ∙ sym (append_assoc pre xs (zeros n)))

to_be-low : (v : ℕ) → to_be 2 (v % 2 ^ 16) ≡ to_be 2 v
unfolding to_be
to_be-low v =
    let high : v % 2 ^ 16 / 256 % 256 ≡ v / 256 % 256 = omega arith in
    let low : v % 2 ^ 16 / 1 % 256 ≡ v / 1 % 256 = omega arith in rw (high, low) refl

put_messages-frames :
    (ms : List ByteList) (pre : ByteList) (off k : ℕ)
    → off ≡ length pre
    → k ≡ length (frames ms)
    → put_messages ms (pre ++ zeros k) off ≡ pre ++ frames ms
unfolding put_messages frames
put_messages-frames [] pre off k at_end size = rw size refl
put_messages-frames (m ∷ ms) pre off k at_end size =
    let body = length (frames ms) in
    let count = to_be 2 (length m) in
    let total : k ≡ length count + (length m + body) =
      omega
        (arith, size, length-append {0} count (m ++ frames ms), length-append {0} m (frames ms)) in
    let one : put_u16 (pre ++ zeros k) off (length m % 2 ^ 16)
        ≡ (pre ++ count) ++ zeros (length m + body) =
      put_u16-splice (pre ++ zeros k) off (length m % 2 ^ 16)
      ∙ rw to_be-low (fill pre count off k (length m + body) at_end total) in
    let middle : off + 2 ≡ length (pre ++ count) =
      omega (arith, at_end, length-append {0} pre count, length-to_be 2 (length m)) in
    let two = fill (pre ++ count) m (off + 2) (length m + body) body middle refl in
    let last : off + 2 + length m ≡ length ((pre ++ count) ++ m) =
      omega (arith, middle, length-append {0} (pre ++ count) m) in
    rw (one, two)
      (put_messages-frames ms ((pre ++ count) ++ m) (off + 2 + length m) body last refl
        ∙ append_assoc (pre ++ count) m (frames ms)
        ∙ append_assoc pre count (m ++ frames ms))

packet_size_lem : (ms : List ByteList) → packet_size ms ≡ 20 + length (frames ms)
unfolding packet_size frames
packet_size_lem [] = refl
packet_size_lem (m ∷ ms) = omega (
  arith,
  packet_size_lem ms,
  length-to_be 2 (length m),
  length-append {0} (to_be 2 (length m)) (m ++ frames ms),
  length-append {0} m (frames ms),
)

length-chars : (n i : ℕ) (s : ByteList) → length (chars n i s) ≡ n
unfolding chars
length-chars zero i s = refl
length-chars (suc n) i s = ap suc (length-chars n (suc i) s)

drop-replicate : (k n c : ℕ) → drop k (replicate n c) ≡ replicate (n - k) c
drop-replicate zero n c = let all : n - 0 ≡ n = omega arith in rw all refl
drop-replicate (suc k) zero c = let none : 0 - suc k ≡ 0 = omega arith in rw none refl
drop-replicate (suc k) (suc n) c =
    let one : suc n - suc k ≡ n - k = omega arith in rw one (drop-replicate k n c)

chars-session_from_string : (s : ByteList) → chars 10 0 s ≡ session_from_string s
unfolding session_from_string
chars-session_from_string s =
    let front = take (min (length s) 10) s in
    let width : length front ≡ min (length s) 10 =
      omega (arith, length-take (min (length s) 10) s) in
    let spaces : ByteList = replicate 10 b' ' in
    let skip : 10 - (0 + length front) ≡ 10 - min (length s) 10 = omega (arith, width) in
    let rest = drop-replicate (0 + length front) 10 b' ' in
    chars_lem 10 s ∙ sym (splice_fits 0 front spaces (omega (arith, width)) ∙ rw (rest, skip) refl)

IsByte-chars : (n i : ℕ) (s : ByteList) → All IsByte s → All IsByte (chars n i s)
unfolding chars padded_char
IsByte-chars zero i s b = tt
IsByte-chars (suc n) i s b =
    let byte : IsByte (padded_char s i) = ground (arith, IsByte-at s i b) in
    (byte, IsByte-chars n (suc i) s b)

-- `mold_packet` writes the MoldUDP64 format: the session, cut or padded to ten bytes, the first sequence
-- number, the number of messages, and each message behind its length.
pub mold_packet-encode_packet :
    (session : ByteList) (first : ℕ) (ms : List ByteList)
    → mold_packet session first ms ≡ encode_packet (session_from_string session) first ms
unfolding mold_packet encode_packet
mold_packet-encode_packet session first ms =
    let name = chars 10 0 session in
    let padded = chars-session_from_string session in
    let number = to_be 8 first in
    let count = to_be 2 (length ms) in
    let body = length (frames ms) in
    let n1 = length-chars 10 0 session in
    let n2 = length-to_be 8 first in
    let n3 = length-to_be 2 (length ms) in
    let size = packet_size_lem ms in
    let one : put_chars 10 0 (zeros (packet_size ms)) 0 session ≡ name ++ zeros (10 + body) =
      put_chars-splice 10 0 (zeros (packet_size ms)) 0 session
      ∙ fill [] name 0 (packet_size ms) (10 + body) refl (omega arith) in
    let two : put_u64 (name ++ zeros (10 + body)) 10 first ≡ (name ++ number) ++ zeros (2 + body) =
      put_u64-splice _ 10 first
      ∙ fill name number 10 (10 + body) (2 + body) (sym n1) (omega arith) in
    let at18 : 18 ≡ length (name ++ number) = omega (arith, length-append {0} name number) in
    let three : put_u16 ((name ++ number) ++ zeros (2 + body)) 18 (length ms % 2 ^ 16)
        ≡ ((name ++ number) ++ count) ++ zeros body =
      put_u16-splice _ 18 (length ms % 2 ^ 16)
      ∙ rw to_be-low (fill (name ++ number) count 18 (2 + body) body at18 (omega arith)) in
    let at20 : 20 ≡ length ((name ++ number) ++ count) =
      omega (arith, length-append {0} (name ++ number) count) in
    rw (one, two, three)
      (put_messages-frames ms ((name ++ number) ++ count) 20 body at20 refl
        ∙ append_assoc (name ++ number) count (frames ms)
        ∙ append_assoc name number (count ++ frames ms)
        ∙ ap (λ t. t ++ (number ++ (count ++ frames ms))) padded)

-- The parser reads a packet of `mold_packet` back, for 1 to 65534 messages of fewer than 65536 bytes and
-- a sequence range below 2^64: the session as it was padded, and the messages in order, numbered from the
-- first sequence number on.
pub parse_downstream-mold_packet :
    (session : ByteList) (first : ℕ) (ms : List ByteList)
    → All IsByte session
    → All IsPayload ms
    → 0 < length ms
    → length ms < 65535
    → first + length ms ≤ 2 ^ 64
    → parse_downstream (mold_packet session first ms)
      ≡ ok (data_packet (session_from_string session) first ms)
parse_downstream-mold_packet session first ms s h some_messages few fits =
    let padded = chars-session_from_string session in
    let bytes = IsByte-chars 10 0 session s in
    ap parse_downstream (mold_packet-encode_packet session first ms)
    ∙ parse_downstream-encode_packet (session_from_string session) first ms
        (ap length (sym padded) ∙ length-chars 10 0 session) (rw padded at bytes) h some_messages
        few fits
