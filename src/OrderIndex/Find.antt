-- ===== src/OrderIndex/Find.antt =====
-- `FlatOrderIndex::find` finds what is stored, wherever it is stored.
use market_wire.Prelude.{
  ℕ, zero, suc, ◌+◌, ◌<◌, ◌≤◌, ◌≡◌, ◌≢◌, refl, ◌∙◌, sym, ap, inl, inr, false, none, some,
  Bool-cases, arith, length, ◌==◌, ==_refl, ==_iff, Option-cases,
}
use market_wire.OrderIndex.{empty, occupied, FlatOrderIndex, entry_at, next_pos, find_loop, find}
use market_wire.OrderIndex.Probe.{
  State-cases, probe, Sits, BusyBelow, IsShaped, IsValid, first_pos-probe, next_pos-probe, probe-lt,
}

-- What one probe of `find` comes to.
module _ (t : FlatOrderIndex) (n key pos : ℕ) where
  pub find_loop-empty : (entry_at t pos).state ≡ empty → find_loop (suc n) t key pos ≡ none
  unfolding find_loop
  find_loop-empty e = rw e refl

  pub find_loop-hit :
      (entry_at t pos).state ≡ occupied
      → (entry_at t pos).key ≡ key
      → find_loop (suc n) t key pos ≡ some (entry_at t pos).value
  unfolding find_loop
  find_loop-hit e k = rw (e, k, ==_refl key) refl

  pub find_loop-on :
      (entry_at t pos).state ≢ empty
      → ((entry_at t pos).state ≡ occupied → (entry_at t pos).key ≢ key)
      → find_loop (suc n) t key pos ≡ find_loop n t key (next_pos t pos)
  unfolding find_loop
  find_loop-on busy other = elim (State-cases (entry_at t pos).state) [
    | inl e ↦ absurd (busy e)
    | inr (inl e) ↦
        let miss : ((entry_at t pos).key == key) ≡ false = ground (arith, other e) in
        rw (e, miss) refl
    | inr (inr e) ↦ rw e refl
  ]

-- An entry ends the search for a key, or it is passed over.
pub data Visit (t : FlatOrderIndex) (key pos : ℕ) : Type 0 where
  stop : (entry_at t pos).state ≡ empty → Visit t key pos
  hit : (entry_at t pos).state ≡ occupied → (entry_at t pos).key ≡ key → Visit t key pos
  pass :
      (entry_at t pos).state ≢ empty
      → ((entry_at t pos).state ≡ occupied → (entry_at t pos).key ≢ key)
      → Visit t key pos

pub visit : (t : FlatOrderIndex) (key pos : ℕ) → Visit t key pos
visit t key pos = elim (State-cases (entry_at t pos).state) [
  | inl e ↦ stop e
  | inr (inl e) ↦ elim (Bool-cases ((entry_at t pos).key == key)) [
    | inl same ↦ hit e ((==_iff _ _).0 same)
    | inr other ↦ pass (λ s. cc) (λ s k. ground (arith, other, k))
  ]
  | inr (inr e) ↦ pass (λ s. cc) (λ s. absurd cc)
]

module _ (t : FlatOrderIndex) (s : IsShaped t) (key : ℕ) where
  find_loop-Sits :
      (n i : ℕ) {v : ℕ}
      → find_loop n t key (probe t key i) ≡ some v
      → (pos : ℕ) × Sits t key pos × ((entry_at t pos).value ≡ v)
  unfolding find_loop
  find_loop-Sits zero i h = cc
  find_loop-Sits (suc n) i {v} h =
      let pos = probe t key i in
      elim (visit t key pos) [
        | stop e ↦ absurd (cc (h, find_loop-empty t n key pos e))
        | hit e k ↦ (
          pos,
          record { inside = probe-lt t s key i; state = e; key = k },
          cc (h, find_loop-hit t n key pos e k),
        )
        | pass busy other ↦ find_loop-Sits n (suc i) (
            ap (find_loop n t key) (sym (next_pos-probe t s key i))
            ∙ sym (find_loop-on t n key pos busy other)
            ∙ h)
      ]

  find_loop-finds :
      (n i j : ℕ)
      → i ≤ j
      → j < i + n
      → Sits t key (probe t key j)
      → BusyBelow t key j
      → (v : ℕ) × (find_loop n t key (probe t key i) ≡ some v)
  find_loop-finds zero i j le lt sits busy = absurd (omega arith)
  find_loop-finds (suc n) i j le lt sits busy =
      let pos = probe t key i in
      elim (visit t key pos) [
        | stop e ↦ absurd (elim (Bool-cases (i == j)) [
          | inl same ↦ cc (sits.state, e, (==_iff i j).0 same)
          | inr other ↦ busy i (ground arith) e
        ])
        | hit e k ↦ ((entry_at t pos).value, find_loop-hit t n key pos e k)
        | pass b other ↦ elim (Bool-cases (i == j)) [
          | inl same ↦
              let here : Sits t key pos = rw ((==_iff i j).0 same) sits in
              absurd (other here.state here.key)
          | inr later ↦
              let next : suc i ≤ j = ground arith in
              let (v, found) = find_loop-finds n (suc i) j next (omega arith) sits busy in
              (
                v,
                find_loop-on t n key pos b other
                    ∙ ap (find_loop n t key) (next_pos-probe t s key i)
                    ∙ found,
              )
        ]
      ]

module _ (t : FlatOrderIndex) (valid : IsValid t) (key : ℕ) where
  pub find-Sits :
      {v : ℕ} → find t key ≡ some v → (pos : ℕ) × Sits t key pos × ((entry_at t pos).value ≡ v)
  unfolding find
  find-Sits h =
      find_loop-Sits t valid.shape key (length t.entries) 0
        (ap (find_loop (length t.entries) t key) (sym (first_pos-probe t valid.shape key)) ∙ h)

  pub find_stored : (pos : ℕ) → Sits t key pos → find t key ≡ some (entry_at t pos).value
  unfolding find
  find_stored pos sits =
      let r = valid.reached key pos sits in
      let (v, found) =
        find_loop-finds t valid.shape key (length t.entries) 0 r.probes (omega arith)
          (omega (arith, r.inside)) (rw (r.there) sits) r.busy in
      let run : find t key ≡ some v =
        ap (find_loop (length t.entries) t key) (first_pos-probe t valid.shape key) ∙ found in
      let (p, at_p, value) = find-Sits run in
      let same = valid.unique key p pos at_p sits in cc (run, value, same)

  pub find_absent : ((pos : ℕ) → Sits t key pos → ⊥) → find t key ≡ none
  find_absent free = elim (Option-cases (find t key)) [
    | inl none_there ↦ none_there
    | inr (v, found) ↦ let (p, at_p, _) = find-Sits found in absurd (free p at_p)
  ]

  pub absent_of_none : find t key ≡ none → (pos : ℕ) → Sits t key pos → ⊥
  absent_of_none h pos sits = cc (h, find_stored pos sits)
