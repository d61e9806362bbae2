-- ===== src/OrderIndex/Probe.antt =====
-- The order in which a key's positions are probed, and what a well-formed index promises of it.
use market_wire.Prelude.{
  ℕ, suc, ◌+◌, ◌-◌, ◌%◌, ◌^◌, ◌<◌, ◌≤◌, ◌≡◌, ◌≢◌, refl, ◌∙◌, sym, ap, inl, inr, ◌⊎◌, bit_and, List,
  [], ◌∷◌, arith, length, if◌then◌else◌,
}
use market_wire.Prelude.Bits.{bit_and_mask, pow_pos}
use market_wire.OrderIndex.{
  State, empty, occupied, tombstone, Entry, FlatOrderIndex, is_occupied, entry_at, hash, first_pos,
  next_pos,
}
use native.Mathlib.Nat.{
  mod-add-mod, add-mod-mod, add-mod_right, mod-lt, mod-eq_of_lt, pow-le-pow_right,
}

pub State-cases : (s : State) → (s ≡ empty) ⊎ ((s ≡ occupied) ⊎ (s ≡ tombstone))
State-cases empty = inl refl
State-cases occupied = inr (inl refl)
State-cases tombstone = inr (inr refl)

-- The position that a key's probe number `i` reads.
abbrev pub probe : FlatOrderIndex → ℕ → ℕ → ℕ
probe t key i = (hash key + i) % length t.entries

-- The key is stored at the position.
pub record Sits (t : FlatOrderIndex) (id pos : ℕ) : Type 0 where
  pub inside : pos < length t.entries
  pub state : (entry_at t pos).state ≡ occupied
  pub key : (entry_at t pos).key ≡ id

-- No probe before number `i` meets an empty entry.
abbrev pub BusyBelow : FlatOrderIndex → ℕ → ℕ → Type 0
BusyBelow t key i = (k : ℕ) → k < i → (entry_at t (probe t key k)).state ≢ empty

pub record Reached (t : FlatOrderIndex) (key pos : ℕ) : Type 0 where
  pub probes : ℕ
  pub inside : probes < length t.entries
  pub there : probe t key probes ≡ pos
  pub busy : BusyBelow t key probes

abbrev pub count : List Entry → ℕ
count [] = 0
count (e ∷ es) = (if is_occupied e.state then 1 else 0) + count es

-- The table has a power of two of entries.
pub record IsShaped (t : FlatOrderIndex) : Type 0 where
  pub bits : ℕ
  pub small : bits ≤ 60
  pub capacity : length t.entries ≡ 2 ^ bits
  pub mask : t.mask ≡ 2 ^ bits - 1

pub record IsValid (t : FlatOrderIndex) : Type 0 where
  pub shape : IsShaped t
  pub size : t.size ≡ count t.entries
  pub reached : (key pos : ℕ) → Sits t key pos → Reached t key pos
  pub unique : (key p q : ℕ) → Sits t key p → Sits t key q → p ≡ q

module _ (t : FlatOrderIndex) (s : IsShaped t) where
  pub capacity_pos : 0 < length t.entries
  capacity_pos = rw s.capacity (pow_pos s.bits)

  pub capacity-le : length t.entries ≤ 2 ^ 60
  capacity-le = rw s.capacity (pow-le-pow_right {n = 2} (omega arith) s.small)

  pub bit_and-mask : (a : ℕ) → bit_and a t.mask ≡ a % length t.entries
  bit_and-mask a = rw (s.mask, s.capacity) (bit_and_mask s.bits a)

  pub first_pos-probe : (key : ℕ) → first_pos t key ≡ probe t key 0
  unfolding first_pos
  first_pos-probe key =
      let none_yet : hash key + 0 ≡ hash key = omega arith in rw none_yet (bit_and-mask (hash key))

  pub probe-lt : (key i : ℕ) → probe t key i < length t.entries
  probe-lt key i = mod-lt (hash key + i) capacity_pos

  pub next_pos-probe : (key i : ℕ) → next_pos t (probe t key i) ≡ probe t key (suc i)
  unfolding next_pos
  next_pos-probe key i =
      let no_wrap : (probe t key i + 1) % 2 ^ 64 ≡ probe t key i + 1 =
        mod-eq_of_lt (omega (arith, probe-lt key i, capacity-le)) in
      let next : hash key + i + 1 ≡ hash key + suc i = omega arith in
      rw no_wrap (
        bit_and-mask (probe t key i + 1)
        ∙ mod-add-mod (hash key + i) (length t.entries) 1
        ∙ ap (λ n. n % length t.entries) next)

  -- Every position is probed.
  pub probe_onto :
      (key pos : ℕ)
      → pos < length t.entries
      → (i : ℕ) × (i < length t.entries) × (probe t key i ≡ pos)
  probe_onto key pos lt =
      let cap = length t.entries in
      let back = cap - hash key % cap + pos in
      let whole : hash key % cap + back ≡ pos + cap =
        omega (arith, mod-lt (hash key) capacity_pos) in
      let there : (hash key + back) % cap ≡ pos =
        sym (mod-add-mod (hash key) cap back)
        ∙ ap (λ n. n % cap) whole
        ∙ add-mod_right pos cap
        ∙ mod-eq_of_lt lt in
      (back % cap, mod-lt back capacity_pos, add-mod-mod (hash key) back cap ∙ there)
