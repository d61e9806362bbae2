-- ===== src/OrderIndex/Adds.antt =====
-- What `FlatOrderIndex::insert` answers, and what it leaves behind.
use market_wire.Prelude.{
  ℕ, zero, suc, ◌+◌, ◌*◌, ◌%◌, ◌^◌, ◌<◌, ◌≤◌, ◌≡◌, refl, ◌∙◌, sym, ap, inl, inr, ◌⊎◌, Bool, true,
  false, Option, none, some, ◌&&◌, not, Bool-cases, arith, length, length-set, if◌then◌else◌, ◌==◌,
  ==_iff, leb, ltb, Option-cases,
}
use market_wire.OrderIndex.{occupied, FlatOrderIndex, entry_at, find, insert, insert_loop}
use market_wire.OrderIndex.Erase.{is_some}
use market_wire.OrderIndex.Find.{stop, hit, pass, visit, absent_of_none, find-Sits}
use market_wire.OrderIndex.Insert.{insert_loop-Stores, insert_loop-on, insert_loop-hit, Stores}
use market_wire.OrderIndex.Probe.{
  probe, probe_onto, Sits, BusyBelow, IsValid, capacity-le, first_pos-probe,
}
use market_wire.OrderIndex.Store.{store-written, store-IsValid, find-after}
use market_wire.OrderIndex.Written.{count_full, count-le-length}

-- `size_ * 10 < entries_.size() * 7`
abbrev pub has_room : FlatOrderIndex → Bool
has_room t = ltb (t.size * 10) (length t.entries * 7)

-- What `insert` does to the table and answers.
pub record Inserts (t : FlatOrderIndex) (key value : ℕ) (t' : FlatOrderIndex) (answer : Bool)
    : Type 0 where
  pub valid : IsValid t'
  pub answers : answer ≡ (not (is_some (find t key)) && has_room t)
  pub finds : (q : ℕ) → find t' q ≡ (if answer && q == key then some value else find t q)
  pub size : t'.size ≡ t.size + (if answer then 1 else 0)
  pub capacity : length t'.entries ≡ length t.entries

module _ (t : FlatOrderIndex) (valid : IsValid t) (key value : ℕ) where
  load_test : leb (length t.entries * 7 % 2 ^ 64) (t.size * 10 % 2 ^ 64) ≡ not (has_room t)
  load_test =
      let small = capacity-le t valid.shape in
      let fits : length t.entries * 7 % 2 ^ 64 ≡ length t.entries * 7 = omega arith in
      let size_fits : t.size * 10 % 2 ^ 64 ≡ t.size * 10 =
        omega (arith, valid.size, count-le-length t.entries) in
      rw (fits, size_fits) (ground arith)

  stays : has_room t ≡ false ⊎ ((v : ℕ) × (find t key ≡ some v)) → Inserts t key value t false
  stays why = record {
    valid = valid;
    answers = elim why [ inl full ↦ rw full (ground arith) | inr (v, found) ↦ rw found refl ];
    finds = λ q. refl;
    size = omega arith;
    capacity = refl;
  }

  spare :
      has_room t ≡ true
      → ((k : ℕ) → k < length t.entries → (entry_at t (probe t key k)).state ≡ occupied)
      → ⊥
  spare room all =
      let full = count_full t.entries (λ i lt.
        let (k, k_lt, there) = probe_onto t valid.shape key i lt in
        ap (λ j. (entry_at t j).state) (sym there) ∙ all k k_lt) in
      ground (arith, room, full, valid.size)

  refuses :
      (n i j : ℕ) (found : Option ℕ)
      → i ≤ j
      → j < i + n
      → Sits t key (probe t key j)
      → BusyBelow t key j
      → insert_loop n t key value (probe t key i) found ≡ (t, false)
  unfolding insert_loop
  refuses zero i j found le lt sits busy = absurd (omega arith)
  refuses (suc n) i j found le lt sits busy = elim (Bool-cases (i == j)) [
    | inl same ↦
        let here : Sits t key (probe t key i) = rw ((==_iff i j).0 same) sits in
        insert_loop-hit t valid.shape key value n i found here.state here.key
    | inr other ↦ elim (visit t key (probe t key i)) [
      | stop e ↦ absurd (busy i (ground arith) e)
      | hit e k ↦ insert_loop-hit t valid.shape key value n i found e k
      | pass full apart ↦
          insert_loop-on t valid.shape key value n i found full apart
          ∙ refuses n (suc i) j _ (ground arith) (omega arith) sits busy
    ]
  ]

  Inserts-Stores :
      (o : FlatOrderIndex × Bool)
      → find t key ≡ none
      → has_room t ≡ true
      → Stores t key value o
      → Inserts t key value o.0 o.1
  Inserts-Stores o absent room (target, free, run) =
      let there = absent_of_none t valid key absent in
      rw (run, store-written t valid key value target there free)
        (record {
          valid = store-IsValid t valid key value target there free;
          answers = rw (absent, room) refl;
          finds = find-after t valid key value target there free;
          size = omega arith;
          capacity = length-set t.entries target _;
        })

  pub Inserts-cases : Inserts t key value (insert t key value).0 (insert t key value).1
  unfolding insert
  Inserts-cases = elim (Bool-cases (has_room t)) [
    | inr full ↦ rw (load_test, full) (stays (inl full))
    | inl room ↦ elim (Option-cases (find t key)) [
      | inl absent ↦
          rw (load_test, room, first_pos-probe t valid.shape key)
            (Inserts-Stores _ absent room (
              insert_loop-Stores t valid.shape key value (absent_of_none t valid key absent)
                (spare room) (length t.entries) 0 none (omega arith) (λ k lt. absurd (omega arith))
                (λ k lt. absurd (omega arith))))
      | inr (v, found) ↦
          let (pos, sits, _) = find-Sits t valid key found in
          let r = valid.reached key pos sits in
          let run =
            refuses (length t.entries) 0 r.probes none (omega arith) (omega (arith, r.inside))
              (rw (r.there) sits) r.busy in
          rw (load_test, room, first_pos-probe t valid.shape key, run) (stays (inr (v, found)))
    ]
  ]

-- On a well-formed index `insert` answers true exactly when the key is not there and fewer than 70% of
-- the entries are in use. Then the key has its value, every other key keeps its own, and the size
-- goes up by one; else no key changes. The index stays well-formed, tombstones or not.
pub insert-Inserts :
    (t : FlatOrderIndex) (key value : ℕ)
    → IsValid t
    → Inserts t key value (insert t key value).0 (insert t key value).1
insert-Inserts t key value valid = Inserts-cases t valid key value
