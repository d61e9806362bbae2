-- ===== src/OrderIndex/Erase.antt =====
-- `FlatOrderIndex::erase` takes one key away.
use market_wire.Prelude.{
  ℕ, zero, suc, ◌+◌, ◌-◌, ◌%◌, ◌^◌, ◌≡◌, ◌≢◌, refl, ◌∙◌, sym, ap, inl, inr, Bool, true, false,
  Option, none, some, Bool-cases, arith, length, length-set, set, if◌then◌else◌, ◌==◌, ==_iff,
  ==_refl, Option-cases,
}
use market_wire.OrderIndex.{
  empty, occupied, tombstone, Entry, FlatOrderIndex, entry_at, find, find_loop, bury, erase,
  erase_loop, next_pos,
}
use market_wire.OrderIndex.Find.{
  stop, hit, pass, visit, find-Sits, find_stored, find_absent, absent_of_none, find_loop-empty,
  find_loop-on,
}
use market_wire.OrderIndex.Probe.{
  State-cases, probe, Sits, IsShaped, IsValid, count, capacity-le, next_pos-probe, probe-lt,
  first_pos-probe,
}
use market_wire.OrderIndex.Written.{
  weight, count-set, count-le-length, written, written_here, written_elsewhere, IsShaped-written,
  Reached-written, Sits-back, Sits-written,
}

module _ (t : FlatOrderIndex) (valid : IsValid t) (key pos : ℕ) (sits : Sits t key pos) where
  abbrev grave : Entry
  grave = record (entry_at t pos) { state = tombstone }

  abbrev after : FlatOrderIndex
  after = written t pos grave (t.size - 1)

  one_less : suc (count (set t.entries pos grave)) ≡ count t.entries
  one_less =
      let was : weight (entry_at t pos) ≡ 1 = rw (sits.state) refl in
      omega (arith, count-set t.entries pos grave sits.inside, was)

  pub bury-written : bury t pos ≡ after
  unfolding bury
  bury-written =
      let small = count-le-length t.entries in
      let size : (t.size + (2 ^ 64 - 1)) % 2 ^ 64 ≡ t.size - 1 =
        omega (arith, valid.size, one_less, small, capacity-le t valid.shape) in
      rw size refl

  not_empty : grave.state ≢ empty
  not_empty = λ s. cc

  -- What is left was there before, under another key.
  left : (q j : ℕ) → Sits after q j → Sits t q j × (q ≢ key)
  left q j still = elim (Bool-cases (pos == j)) [
    | inl same ↦
        let here = written_here t pos grave (t.size - 1) sits.inside in
        let e = (==_iff pos j).0 same in
        absurd (cc (still.state, ap (λ i. (entry_at after i).state) e, ap (λ x. x.state) here))
    | inr other ↦
        let apart : pos ≢ j = λ e. ground (arith, other, e) in
        let was = Sits-back t pos grave (t.size - 1) sits.inside q j apart still in
        (was, λ e. apart (valid.unique key pos j sits (rw e at was)))
  ]

  pub bury-IsValid : IsValid after
  bury-IsValid = record {
    shape = IsShaped-written t pos grave (t.size - 1) sits.inside valid.shape;
    size = omega (arith, valid.size, one_less);
    reached = λ q j still.
        Reached-written t pos grave (t.size - 1) sits.inside q j not_empty
          (valid.reached q j (left q j still).0);
    unique = λ q i j si sj. valid.unique q i j (left q i si).0 (left q j sj).0;
  }

  keeps_others : (q : ℕ) → q ≢ key → find after q ≡ find t q
  keeps_others q ne = elim (Option-cases (find t q)) [
    | inl missing ↦
        find_absent after bury-IsValid q
          (λ j still. absent_of_none t valid q missing j (left q j still).0)
        ∙ sym missing
    | inr (v, found) ↦
        let (j, at_j, is_v) = find-Sits t valid q found in
        let apart : pos ≢ j =
          λ e. ne (sym at_j.key ∙ sym (ap (λ i. (entry_at t i).key) e) ∙ sits.key) in
        let still = Sits-written t pos grave (t.size - 1) sits.inside q j apart at_j in
        let same = written_elsewhere t pos grave (t.size - 1) sits.inside j apart in
        find_stored after bury-IsValid q j still
        ∙ ap (λ x. some x.value) same
        ∙ ap some is_v
        ∙ sym found
  ]

  pub find-bury : (q : ℕ) → find after q ≡ (if q == key then none else find t q)
  find-bury q = elim (Bool-cases (q == key)) [
    | inl same ↦
        rw same
          (find_absent after bury-IsValid q (λ j still. (left q j still).1 ((==_iff q key).0 same)))
    | inr other ↦ rw other (keeps_others q (λ e. ground (arith, other, e)))
  ]

-- One probe of `erase`.
module _ (t : FlatOrderIndex) (n key pos : ℕ) where
  erase_loop-empty : (entry_at t pos).state ≡ empty → erase_loop (suc n) t key pos ≡ (t, false)
  unfolding erase_loop
  erase_loop-empty e = rw e refl

  erase_loop-hit :
      (entry_at t pos).state ≡ occupied
      → (entry_at t pos).key ≡ key
      → erase_loop (suc n) t key pos ≡ (bury t pos, true)
  unfolding erase_loop
  erase_loop-hit e k = rw (e, k, ==_refl key) refl

  erase_loop-on :
      (entry_at t pos).state ≢ empty
      → ((entry_at t pos).state ≡ occupied → (entry_at t pos).key ≢ key)
      → erase_loop (suc n) t key pos ≡ erase_loop n t key (next_pos t pos)
  unfolding erase_loop
  erase_loop-on busy other = elim (State-cases (entry_at t pos).state) [
    | inl e ↦ absurd (busy e)
    | inr (inl e) ↦
        let miss : ((entry_at t pos).key == key) ≡ false = ground (arith, other e) in
        rw (e, miss) refl
    | inr (inr e) ↦ rw e refl
  ]

pub data Erased (t : FlatOrderIndex) (key : ℕ) (sought : Option ℕ) (o : FlatOrderIndex × Bool)
    : Type 0 where
  missed : sought ≡ none → o ≡ (t, false) → Erased t key sought o
  buried : (pos : ℕ) → Sits t key pos → o ≡ (bury t pos, true) → Erased t key sought o

erase_loop-Erased :
    (t : FlatOrderIndex) (s : IsShaped t) (key n i : ℕ)
    → Erased t key (find_loop n t key (probe t key i)) (erase_loop n t key (probe t key i))
unfolding find_loop erase_loop
erase_loop-Erased t s key zero i = missed refl refl
erase_loop-Erased t s key (suc n) i =
    let pos = probe t key i in
    elim (visit t key pos) [
      | stop e ↦ missed (find_loop-empty t n key pos e) (erase_loop-empty t n key pos e)
      | hit e k ↦
          buried pos (record { inside = probe-lt t s key i; state = e; key = k })
            (erase_loop-hit t n key pos e k)
      | pass busy other ↦
          rw
            (
              find_loop-on t n key pos busy other,
              erase_loop-on t n key pos busy other,
              next_pos-probe t s key i,
            )
            (erase_loop-Erased t s key n (suc i))
    ]

abbrev pub is_some : Option ℕ → Bool
is_some none = false
is_some (some v) = true

-- What `erase` does to the table and answers.
pub record Removes (t : FlatOrderIndex) (key : ℕ) (t' : FlatOrderIndex) (answer : Bool)
    : Type 0 where
  pub valid : IsValid t'
  pub finds : (q : ℕ) → find t' q ≡ (if q == key then none else find t q)
  pub answers : answer ≡ is_some (find t key)
  pub size : t'.size + (if answer then 1 else 0) ≡ t.size
  pub capacity : length t'.entries ≡ length t.entries

Removes-Erased :
    (t : FlatOrderIndex) (key : ℕ) (o : FlatOrderIndex × Bool)
    → IsValid t
    → Erased t key (find t key) o
    → Removes t key o.0 o.1
Removes-Erased t key o valid (missed absent run) = rw run (record {
  valid = valid;
  finds = λ q. elim (Bool-cases (q == key)) [
    | inl same ↦ rw same (ap (find t) ((==_iff q key).0 same) ∙ absent)
    | inr other ↦ rw other refl
  ];
  answers = rw absent refl;
  size = omega arith;
  capacity = refl;
})
Removes-Erased t key o valid (buried pos sits run) =
    rw (run, bury-written t valid key pos sits)
      (record {
        valid = bury-IsValid t valid key pos sits;
        finds = find-bury t valid key pos sits;
        answers = rw (find_stored t valid key pos sits) refl;
        size = omega (arith, valid.size, one_less t valid key pos sits);
        capacity = length-set t.entries pos _;
      })

-- On a well-formed index `erase` removes exactly the key given and leaves the index well-formed. It
-- answers whether the key was there, and the size goes down by one if it was.
pub erase-Removes :
    (t : FlatOrderIndex) (key : ℕ) → IsValid t → Removes t key (erase t key).0 (erase t key).1
unfolding erase find
erase-Removes t key valid = Removes-Erased t key (erase t key) valid (
    rw (first_pos-probe t valid.shape key)
      (erase_loop-Erased t valid.shape key (length t.entries) 0))
