-- ===== src/Wire/Read.antt =====
-- The readers of include/efe/byte_reader.hpp are bounds-checked big-endian fields.
use market_wire.Prelude.{
  ℕ, zero, suc, ◌+◌, ◌*◌, ◌%◌, ◌^◌, ◌≤◌, ◌<◌, ◌≡◌, refl, ap, [], ◌∷◌, bit_or, arith, leb,
  if◌then◌else◌, length, All, take, drop, Bool-cases, inl, inr, leb→le, length-take, length-drop,
  All-take, All-drop,
}
use market_wire.Prelude.Bits.{bit_or_shift}
use market_wire.Prelude.Result.{Result, ok, throw, truncated_message, ◌>>◌}
use market_wire.Wire.Bytes.{IsByte, be_value, be_value-lt, pow_pos_256}
use market_wire.Wire.{
  ByteList, at, require_bytes, read_u8, read_u16_be, read_u32_be, read_loop, read_u48_be,
  read_u64_be,
}
use native.Mathlib.Nat.{pow-suc}
use native.Mathlib.Numerals.{add-one, towards_suc}

-- The `n`-byte big-endian field at `offset`.
unfoldable pub be_field : ℕ → ByteList → ℕ → Result ℕ
be_field n bytes offset =
    if leb (offset + n) (length bytes)
    then ok (be_value 0 (take n (drop offset bytes)))
    else throw truncated_message

pub require_bytes_lem :
    (bytes : ByteList) (offset width : ℕ)
    → require_bytes bytes offset width
      ≡ (if leb (offset + width) (length bytes) then ok tt else throw truncated_message)
unfolding require_bytes
require_bytes_lem bytes offset width = ground arith

pub drop_cons :
    (bytes : ByteList) (i : ℕ) → i < length bytes → drop i bytes ≡ at bytes i ∷ drop (suc i) bytes
drop_cons [] i h = absurd (omega arith)
drop_cons (x ∷ bytes) zero h = refl
drop_cons (x ∷ bytes) (suc i) h = drop_cons bytes i (omega arith)

pub IsByte-at : (bytes : ByteList) (i : ℕ) → All IsByte bytes → IsByte (at bytes i)
IsByte-at [] i h = omega arith
IsByte-at (x ∷ bytes) zero h = h.0
IsByte-at (x ∷ bytes) (suc i) h = IsByte-at bytes i h.1

shift_in :
    (value b p : ℕ)
    → value < p
    → p * 256 ≤ 2 ^ 64
    → b < 256
    → bit_or (value * 2 ^ 8 % 2 ^ 64) b ≡ value * 256 + b
shift_in value b p small fits h =
    let e : value * 2 ^ 8 % 2 ^ 64 ≡ value * 2 ^ 8 = omega arith in rw e (bit_or_shift 8 value b h)

pub read_loop-be :
    (n : ℕ) (bytes : ByteList) (i value p : ℕ)
    → All IsByte bytes
    → value < p
    → p * 256 ^ n ≤ 2 ^ 64
    → i + n ≤ length bytes
    → read_loop n bytes i value ≡ be_value value (take n (drop i bytes))
unfolding read_loop be_value
read_loop-be zero bytes i value p b small fits room = refl
read_loop-be (suc n) bytes i value p b small fits room =
    let wide : p * 256 * 256 ^ n ≤ 2 ^ 64 = let f = rw pow-suc at fits in omega arith in
    let narrow : p * 256 ≤ 2 ^ 64 = grind (arith, pow_pos_256 n) in
    let x : at bytes i < 256 = IsByte-at bytes i b in
    rw (drop_cons bytes i (omega arith), shift_in value (at bytes i) p small narrow x)
      (rw add-one (
        read_loop-be n bytes (suc i) (value * 256 + at bytes i) (p * 256) b (omega arith) wide
          (omega arith)))

pub take_four :
    (bytes : ByteList) (i : ℕ)
    → i + 4 ≤ length bytes
    → take 4 (drop i bytes)
      ≡ at bytes i ∷ at bytes (i + 1) ∷ at bytes (i + 2) ∷ at bytes (i + 3) ∷ []
take_four bytes i room = simp towards_suc (
    rw (drop_cons bytes i (omega arith)) (
      rw (drop_cons bytes (suc i) (omega arith)) (
        rw (drop_cons bytes (suc (suc i)) (omega arith))
          (rw (drop_cons bytes (suc (suc (suc i))) (omega arith)) refl))))

pub take_two :
    (bytes : ByteList) (i : ℕ)
    → i + 2 ≤ length bytes
    → take 2 (drop i bytes) ≡ at bytes i ∷ at bytes (i + 1) ∷ []
take_two bytes i room =
    simp towards_suc
      (rw (drop_cons bytes i (omega arith)) (rw (drop_cons bytes (suc i) (omega arith)) refl))

pub two_bytes :
    (a b : ℕ) → a < 256 → b < 256 → bit_or (a * 2 ^ 8) b % 2 ^ 16 ≡ (0 * 256 + a) * 256 + b
two_bytes a b ha hb = omega (arith, bit_or_shift 8 a b hb)

pub four_bytes :
    (a b c d : ℕ)
    → a < 256
    → b < 256
    → c < 256
    → d < 256
    → bit_or (bit_or (bit_or (a * 2 ^ 24 % 2 ^ 32) (b * 2 ^ 16 % 2 ^ 32)) (c * 2 ^ 8 % 2 ^ 32)) d
      ≡ (((0 * 256 + a) * 256 + b) * 256 + c) * 256 + d
four_bytes a b c d ha hb hc hd =
    let ea : a * 2 ^ 24 % 2 ^ 32 ≡ a * 2 ^ 24 = omega arith in
    let eb : b * 2 ^ 16 % 2 ^ 32 ≡ b * 2 ^ 16 = omega arith in
    let ec : c * 2 ^ 8 % 2 ^ 32 ≡ c * 2 ^ 8 = omega arith in
    let ab : a * 2 ^ 24 + b * 2 ^ 16 ≡ (a * 256 + b) * 2 ^ 16 = omega arith in
    let abc : (a * 256 + b) * 2 ^ 16 + c * 2 ^ 8 ≡ ((a * 256 + b) * 256 + c) * 2 ^ 8 =
      omega arith in
    rw (ea, eb, ec, bit_or_shift 24 a (b * 2 ^ 16) (omega arith), ab)
      (rw (bit_or_shift 16 (a * 256 + b) (c * 2 ^ 8) (omega arith), abc)
        (rw (bit_or_shift 8 ((a * 256 + b) * 256 + c) d hd) (omega arith)))

module _ (bytes : ByteList) (offset : ℕ) where
  guarded_field :
      (n value : ℕ)
      → (offset + n ≤ length bytes → value ≡ be_value 0 (take n (drop offset bytes)))
      → (do require_bytes bytes offset n; ok value) ≡ be_field n bytes offset
  unfolding be_field
  guarded_field n value h =
      rw require_bytes_lem (elim (Bool-cases (leb (offset + n) (length bytes))) [
        | inr e ↦ rw e
        | inl e ↦ rw e (ap ok (h (leb→le _ _ e)))
      ])

  module _ (b : All IsByte bytes) where
    pub read_u64_be_lem : read_u64_be bytes offset ≡ be_field 8 bytes offset
    unfolding read_u64_be
    read_u64_be_lem =
        guarded_field 8 _ (read_loop-be 8 bytes offset 0 1 b (omega arith) (omega arith))

    pub read_u48_be_lem : read_u48_be bytes offset ≡ be_field 6 bytes offset
    unfolding read_u48_be
    read_u48_be_lem =
        guarded_field 6 _ (read_loop-be 6 bytes offset 0 1 b (omega arith) (omega arith))

    byte : (i : ℕ) → at bytes i < 256
    byte i = IsByte-at bytes i b

    pub read_u16_be_lem : read_u16_be bytes offset ≡ be_field 2 bytes offset
    unfolding read_u16_be be_value
    read_u16_be_lem =
        guarded_field 2 _ (λ room.
          rw (take_two bytes offset room) (two_bytes _ _ (byte offset) (byte (offset + 1))))

    pub read_u32_be_lem : read_u32_be bytes offset ≡ be_field 4 bytes offset
    unfolding read_u32_be be_value
    read_u32_be_lem = guarded_field 4 _ (λ room. rw (take_four bytes offset room) (
        four_bytes _ _ _ _ (byte offset) (byte (offset + 1)) (byte (offset + 2))
          (byte (offset + 3))))

  pub read_u8_lem : read_u8 bytes offset ≡ be_field 1 bytes offset
  unfolding read_u8 be_value
  read_u8_lem = guarded_field 1 _ (λ room. rw (drop_cons bytes offset (omega arith)) (omega arith))

-- Every field is below the power of its width.
pub be_field-lt :
    (n : ℕ) (bytes : ByteList) (offset : ℕ) {v : ℕ}
    → All IsByte bytes
    → be_field n bytes offset ≡ ok v
    → v < 256 ^ n
unfolding be_field
be_field-lt n bytes offset {v = v} b e = elim (Bool-cases (leb (offset + n) (length bytes))) [
  | inr h ↦ absurd (cc (rw h at e))
  | inl h ↦
      let piece = take n (drop offset bytes) in
      let width : length piece ≡ n =
        omega (arith, length-take n (drop offset bytes), length-drop offset bytes, leb→le _ _ h) in
      let bytes_of : All IsByte piece = All-take IsByte n _ (All-drop IsByte offset bytes b) in
      let small : be_value 0 piece < 1 * 256 ^ n =
        rw width at (be_value-lt 0 1 piece (omega arith) bytes_of) in
      let value : be_value 0 piece ≡ v = cc (rw h at e) in omega arith
]

-- Each reader returns the big-endian number of its bytes, and throws exactly when they reach past the
-- end.
pub readers-be_field :
    (bytes : ByteList) (offset : ℕ)
    → All IsByte bytes
    → (read_u8 bytes offset ≡ be_field 1 bytes offset)
      × (read_u16_be bytes offset ≡ be_field 2 bytes offset)
      × (read_u32_be bytes offset ≡ be_field 4 bytes offset)
      × (read_u48_be bytes offset ≡ be_field 6 bytes offset)
      × (read_u64_be bytes offset ≡ be_field 8 bytes offset)
readers-be_field bytes offset b = (
  read_u8_lem bytes offset,
  read_u16_be_lem bytes offset b,
  read_u32_be_lem bytes offset b,
  read_u48_be_lem bytes offset b,
  read_u64_be_lem bytes offset b,
)
