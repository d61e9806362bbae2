-- ===== src/Capture/Fields.antt =====
-- The numbers of a capture file are big-endian fields.
use market_wire.Prelude.{
  ℕ, zero, suc, ◌*◌, ◌/◌, ◌%◌, ◌^◌, ◌<◌, ◌≡◌, refl, ap, ◌∙◌, sym, bit_and, ◌++◌, ltb, length, arith,
  take-append_length, drop-append_length, length-append, false,
}
use market_wire.Prelude.Bits.{bit_and_mask}
use market_wire.Prelude.Result.{ok, Failure}
use market_wire.Capture.{u64_bytes, write_u32, write_u64, read_bytes, read_u32, read_u64}
use market_wire.Wire.Bytes.{to_be, length-to_be, pow_eight}
use market_wire.Wire.Values.{u32_value, u64_value}
use market_wire.Wire.{ByteList}

u64_bytes-to_be : (n v : ℕ) → u64_bytes n v ≡ to_be n v
unfolding u64_bytes to_be
u64_bytes-to_be zero v = refl
u64_bytes-to_be (suc i) v =
    let byte : bit_and (v / 2 ^ (i * 8)) 0xFF ≡ v / 256 ^ i % 256 =
      bit_and_mask 8 (v / 2 ^ (i * 8)) ∙ rw pow_eight refl in
    rw (byte, u64_bytes-to_be i v) refl

pub write_u64_lem : (out : ByteList) (v : ℕ) → write_u64 out v ≡ out ++ to_be 8 v
unfolding write_u64
write_u64_lem out v = ap (λ t. out ++ t) (u64_bytes-to_be 8 v)

pub write_u32_lem : (out : ByteList) (v : ℕ) → write_u32 out v ≡ out ++ to_be 4 v
unfolding write_u32 to_be
write_u32_lem out v = let low : v % 2 ^ 8 ≡ v / 1 % 256 = omega arith in rw low refl

-- What was written is read, and the rest is left.
pub read_bytes-append :
    (xs rest : ByteList) (n : ℕ) (e : Failure)
    → length xs ≡ n
    → read_bytes n e (xs ++ rest) ≡ ok (xs, rest)
read_bytes-append xs rest n e size =
    let room : ltb (length (xs ++ rest)) n ≡ false = ground (arith, length-append {0} xs rest) in
    rw room (rw (sym size) (rw (take-append_length xs rest, drop-append_length xs rest) refl))

pub read_u64-to_be :
    (v : ℕ) (rest : ByteList) → v < 2 ^ 64 → read_u64 (to_be 8 v ++ rest) ≡ ok (v, rest)
unfolding read_u64
read_u64-to_be v rest small =
    rw (read_bytes-append (to_be 8 v) rest 8 _ (length-to_be 8 v)) (rw (u64_value v small) refl)

pub read_u32-to_be :
    (v : ℕ) (rest : ByteList) → v < 2 ^ 32 → read_u32 (to_be 4 v ++ rest) ≡ ok (v, rest)
unfolding read_u32 to_be
read_u32-to_be v rest small =
    let low : v / 1 % 256 ≡ v % 2 ^ 8 = omega arith in
    rw (read_bytes-append (to_be 4 v) rest 4 _ refl) (rw low (rw (u32_value v small) refl))
