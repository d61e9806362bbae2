-- ===== src/Prelude/Bits.antt =====
-- Shifts and masks: `bit_or` of disjoint parts is a sum, `bit_and` with a mask of ones a remainder.
use Prim.Native.Nat.{
  ℕ, zero, suc, ◌+◌, ◌-◌, ◌*◌, ◌/◌, ◌%◌, ◌^◌, ◌≤◌, ◌<◌, min, max, bit_and, bit_or, digits,
  bit_and-bitwise, bit_or-bitwise,
}
use mathlib.Core.Path.{◌≡◌, refl, sym, ap, ◌∙◌}
use native.Mathlib.Omega.{arith}
use native.Mathlib.Nat.{pow-suc, div-add-mod, mod-lt, mod-eq_of_lt, add-mul-mod_self_left}

module _ (f : ℕ → ℕ → ℕ) (z : ℕ → ℕ) (z_step : (b : ℕ) → z b ≡ z (b / 2) * 2 + f 0 (b % 2)) where
  one_more : (fuel a b : ℕ) → a ≤ fuel → digits z f (suc fuel) a b ≡ digits z f fuel a b
  one_more zero zero b le = refl
  one_more zero (suc a) b le = absurd (omega arith)
  one_more (suc fuel) zero b le = refl
  one_more (suc fuel) (suc a) b le =
      ap (λ high. high * 2 + f (suc a % 2) (b % 2))
        (one_more fuel (suc a / 2) (b / 2) (omega arith))

  enough : (more a b : ℕ) → digits z f (a + more) a b ≡ digits z f a a b
  enough zero a b = let same : a + 0 ≡ a = omega arith in rw same refl
  enough (suc more) a b =
      let next : a + suc more ≡ suc (a + more) = omega arith in
      rw next (one_more (a + more) a b (omega arith) ∙ enough more a b)

  -- The law of the lowest digit.
  digits_step :
      (a b : ℕ) → digits z f a a b ≡ digits z f (a / 2) (a / 2) (b / 2) * 2 + f (a % 2) (b % 2)
  digits_step zero b = z_step b
  digits_step (suc a) b =
      let rest : a ≡ suc a / 2 + (a - suc a / 2) = omega arith in
      ap (λ high. high * 2 + f (suc a % 2) (b % 2))
        (ap (λ n. digits z f n (suc a / 2) (b / 2)) rest
          ∙ enough (a - suc a / 2) (suc a / 2) (b / 2))

pub bit_or_step : (a b : ℕ) → bit_or a b ≡ bit_or (a / 2) (b / 2) * 2 + max (a % 2) (b % 2)
bit_or_step a b = omega (
  arith,
  bit_or-bitwise a b,
  bit_or-bitwise (a / 2) (b / 2),
  digits_step max (λ b. b) (λ b. omega arith) a b,
)

pub bit_and_step : (a b : ℕ) → bit_and a b ≡ bit_and (a / 2) (b / 2) * 2 + min (a % 2) (b % 2)
bit_and_step a b = omega (
  arith,
  bit_and-bitwise a b,
  bit_and-bitwise (a / 2) (b / 2),
  digits_step min (λ b. 0) (λ b. omega arith) a b,
)

-- With 0 on the right every digit is the left one, or 0.
left_digits : (fuel a : ℕ) → a ≤ fuel → digits (λ b. b) max fuel a 0 ≡ a
left_digits zero a le = omega arith
left_digits (suc fuel) zero le = refl
left_digits (suc fuel) (suc a) le = omega (arith, left_digits fuel (suc a / 2) (omega arith))

no_digits : (fuel a : ℕ) → digits (λ b. 0) min fuel a 0 ≡ 0
no_digits zero a = refl
no_digits (suc fuel) zero = refl
no_digits (suc fuel) (suc a) = omega (arith, no_digits fuel (suc a / 2))

bit_or-zero : (a : ℕ) → bit_or a 0 ≡ a
bit_or-zero a = bit_or-bitwise a 0 ∙ left_digits a a (omega arith)

bit_and-zero : (a : ℕ) → bit_and a 0 ≡ 0
bit_and-zero a = bit_and-bitwise a 0 ∙ no_digits a a

or_shift_step :
    (hi p lo : ℕ)
    → bit_or (hi * p) (lo / 2) ≡ hi * p + lo / 2
    → bit_or (hi * (p * 2)) lo ≡ hi * (p * 2) + lo
or_shift_step hi p lo h =
    let e : hi * (p * 2) / 2 ≡ hi * p = omega arith in
    omega (arith, bit_or_step (hi * (p * 2)) lo, ap (λ (t : ℕ). bit_or t (lo / 2)) e)

and_mask_step :
    (p a : ℕ)
    → 0 < p
    → bit_and (a / 2) (p - 1) ≡ a / 2 % p
    → bit_and a (p * 2 - 1) ≡ a / 2 % p * 2 + a % 2
and_mask_step p a pos h =
    let e : (p * 2 - 1) / 2 ≡ p - 1 = omega arith in
    omega (arith, bit_and_step a (p * 2 - 1), ap (λ (t : ℕ). bit_and (a / 2) t) e)

pub pow_pos : (k : ℕ) → 0 < 2 ^ k
pow_pos zero = omega arith
pow_pos (suc k) = rw pow-suc (omega (arith, pow_pos k))

-- `(hi << k) | lo`, where `lo` has at most `k` bits
pub bit_or_shift : (k hi lo : ℕ) → lo < 2 ^ k → bit_or (hi * 2 ^ k) lo ≡ hi * 2 ^ k + lo
bit_or_shift zero hi lo h =
    let e : lo ≡ 0 = omega arith in rw e (omega (arith, bit_or-zero (hi * 1)))
bit_or_shift (suc k) hi lo h =
    let small : lo < 2 ^ k * 2 = rw pow-suc at h in
    rw pow-suc (or_shift_step hi (2 ^ k) lo (bit_or_shift k hi (lo / 2) (omega arith)))

mod_step : (p a : ℕ) → 0 < p → a / 2 % p * 2 + a % 2 ≡ a % (p * 2)
mod_step p a pos =
    let low : ℕ = a / 2 % p * 2 + a % 2 in
    let split : a ≡ low + p * 2 * (a / 2 / p) = omega (arith, div-add-mod (a / 2) p) in
    let small : low < p * 2 = omega (arith, mod-lt (a / 2) pos) in
    sym (
      ap (λ n. n % (p * 2)) split
      ∙ add-mul-mod_self_left low (p * 2) (a / 2 / p)
      ∙ mod-eq_of_lt small)

-- `a & (2^k - 1)`
pub bit_and_mask : (k a : ℕ) → bit_and a (2 ^ k - 1) ≡ a % 2 ^ k
bit_and_mask zero a = omega (arith, bit_and-zero a)
bit_and_mask (suc k) a =
    rw pow-suc (
      and_mask_step (2 ^ k) a (pow_pos k) (bit_and_mask k (a / 2)) ∙ mod_step (2 ^ k) a (pow_pos k))
