-- ===== src/OrderIndex/Capacity.antt =====
-- A new index is well-formed, and has room for the keys that it was made for.
use market_wire.Prelude.{
  ℕ, zero, suc, ◌+◌, ◌-◌, ◌*◌, ◌%◌, ◌^◌, ◌<◌, ◌≤◌, ◌≡◌, refl, ◌∙◌, sym, ap, inl, inr, true, none,
  Bool-cases, arith, length, length-replicate, replicate, get_or, if◌then◌else◌, ◌==◌, ==_iff, leb,
  ltb, leb→le,
}
use market_wire.Prelude.Bits.{pow_pos}
use market_wire.OrderIndex.{new_entry, FlatOrderIndex, find, bit_ceil, new_index}
use market_wire.OrderIndex.Adds.{has_room}
use market_wire.OrderIndex.Find.{find_absent}
use market_wire.OrderIndex.Probe.{Sits, IsValid, count}
use native.Mathlib.Nat.{pow-suc}

-- A power of two that is not below `n`, and has at most `m` bits.
bit_ceil-pow :
    (fuel e m n : ℕ)
    → e ≤ m
    → m ≤ e + fuel
    → n ≤ 2 ^ m
    → (b : ℕ) × (b ≤ m) × (bit_ceil fuel (2 ^ e) n ≡ 2 ^ b) × (n ≤ 2 ^ b)
unfolding bit_ceil
bit_ceil-pow zero e m n le lt h = let same : m ≡ e = omega arith in (e, le, refl, rw same at h)
bit_ceil-pow (suc fuel) e m n le lt h = elim (Bool-cases (leb n (2 ^ e))) [
  | inl reached ↦ (e, le, rw reached refl, leb→le n (2 ^ e) reached)
  | inr below ↦ elim (Bool-cases (e == m)) [
    | inl last ↦
        let same : 2 ^ e ≡ 2 ^ m = ap (λ k. 2 ^ k) ((==_iff e m).0 last) in absurd (ground arith)
    | inr more ↦
        let (b, b_le, run, enough) = bit_ceil-pow fuel (suc e) m n (ground arith) (omega arith) h in
        let next : 2 ^ e * 2 ≡ 2 ^ suc e = rw pow-suc refl in
        (b, b_le, rw (below, next) run, enough)
  ]
]

fresh_entry : (n i : ℕ) → get_or (replicate n new_entry) i new_entry ≡ new_entry
fresh_entry zero i = refl
fresh_entry (suc n) zero = refl
fresh_entry (suc n) (suc i) = fresh_entry n i

count-replicate : (n : ℕ) → count (replicate n new_entry) ≡ 0
count-replicate zero = refl
count-replicate (suc n) = omega (arith, count-replicate n)

-- An index for at most `m` keys: well-formed, with twice as many entries.
pub record IsMade (m : ℕ) (t : FlatOrderIndex) : Type 0 where
  pub valid : IsValid t
  pub positive : 0 < length t.entries
  pub twice : m * 2 ≤ length t.entries

module _ (m : ℕ) where
  no_Sits :
      (b : ℕ) (t : FlatOrderIndex)
      → t.entries ≡ replicate b new_entry
      → (key pos : ℕ) → Sits t key pos
      → ⊥
  no_Sits b t e key pos sits = cc (
    sits.state,
    ap (λ es. (get_or es pos new_entry).state) e,
    ap (λ x. x.state) (fresh_entry b pos),
  )

  pub new_index-IsMade : m < 2 ^ 32 → IsMade m (new_index m)
  unfolding new_index
  new_index-IsMade lt =
      let wanted = if ltb m 8 then 16 else m * 2 % 2 ^ 64 in
      let fits : wanted ≤ 2 ^ 33 = ground arith in
      let twice : m * 2 ≤ wanted = ground arith in
      let (b, b_le, run, enough) = bit_ceil-pow 64 0 33 wanted (omega arith) (omega arith) fits in
      let cap = bit_ceil 64 1 wanted in
      let size : length (replicate cap new_entry) ≡ cap = length-replicate cap new_entry in
      record {
        valid = record {
          shape = record {
            bits = b;
            small = omega arith;
            capacity = size ∙ run;
            mask = ap (λ c. c - 1) run;
          };
          size = sym (count-replicate cap);
          reached = λ key pos sits. absurd (no_Sits cap (new_index m) refl key pos sits);
          unique = λ key p q sits _. absurd (no_Sits cap (new_index m) refl key p sits);
        };
        positive = omega (arith, size, run, pow_pos b);
        twice = omega (arith, size, run, enough);
      }

  pub new_index_empty : (lt : m < 2 ^ 32) (q : ℕ) → find (new_index m) q ≡ none
  unfolding new_index
  new_index_empty lt q =
      find_absent (new_index m) (new_index-IsMade lt).valid q (no_Sits _ (new_index m) refl q)

pub has_room_lem : (m : ℕ) (t : FlatOrderIndex) → IsMade m t → t.size ≤ m → has_room t ≡ true
has_room_lem m t made le = ground (arith, made.twice, made.positive)
