-- ===== src/OrderedMap/Laws.antt =====
-- The laws of the ordered map: what each lookup finds after each write, and that order is kept.
use market_wire.Prelude.{
  ◌+◌, ◌≢◌, ◌≡◌, refl, true, none, some, or_else, [], ◌∷◌, arith, if◌then◌else◌, length, Bool-cases,
  inl, inr,
}
use market_wire.OrderedMap.{
  KeyOrder, OrderedMap, same, same_refl, eq_of_same, find, try_emplace, erase, assign, AllKeys,
  IsSorted,
}

module _ {K V : Type 0} where
  pub AllKeys-mono :
      {P Q : K → Type 0} (m : OrderedMap K V) → ((k : K) → P k → Q k) → AllKeys P m → AllKeys Q m
  AllKeys-mono [] f h = tt
  AllKeys-mono ((k, v) ∷ m) f h = (f k h.0, AllKeys-mono m f h.1)

  pub AllKeys-zip :
      {P Q R : K → Type 0} (m : OrderedMap K V)
      → ((k : K) → P k → Q k → R k)
      → AllKeys P m
      → AllKeys Q m
      → AllKeys R m
  AllKeys-zip [] f h g = tt
  AllKeys-zip ((k, v) ∷ m) f h g = (f k h.0 g.0, AllKeys-zip m f h.1 g.1)

module _ {K V : Type 0} (o : KeyOrder K) where
  pub AllKeys-find :
      (P : K → Type 0) (q : K) (m : OrderedMap K V) {v : V}
      → find o q m ≡ some v
      → AllKeys P m
      → P q
  unfolding find
  AllKeys-find P q [] e h = cc
  AllKeys-find P q ((k, w) ∷ m) e h = elim (Bool-cases (same o q k)) [
    | inl s ↦ rw (eq_of_same o q k s) h.0
    | inr n ↦ AllKeys-find P q m (rw n at e) h.1
  ]

  -- A key that is not found is none of the keys.
  pub AllKeys-ne : (q : K) (m : OrderedMap K V) → find o q m ≡ none → AllKeys (λ k. k ≢ q) m
  unfolding find
  AllKeys-ne q [] e = tt
  AllKeys-ne q ((k, w) ∷ m) e = elim (Bool-cases (same o q k)) [
    | inl s ↦ absurd (cc (rw s at e))
    | inr n ↦ (λ p. cc (rw (p, same_refl o q) at n), AllKeys-ne q m (rw n at e))
  ]

  pub find_after :
      (q : K) (m : OrderedMap K V) → AllKeys (λ k. o.before q k ≡ true) m → find o q m ≡ none
  unfolding find
  find_after q [] h = refl
  find_after q ((k, v) ∷ m) h = rw h.0 (find_after q m h.1)

  module _ (q : K) (w : V) where
    pub AllKeys-try_emplace :
        (P : K → Type 0) (m : OrderedMap K V) → P q → AllKeys P m → AllKeys P (try_emplace o q w m)
    unfolding try_emplace
    AllKeys-try_emplace P [] p h = (p, tt)
    AllKeys-try_emplace P ((k, v) ∷ m) p h = elim (Bool-cases (o.before q k)) [
      | inl b ↦ rw b (p, h)
      | inr n ↦ rw n (elim (Bool-cases (o.before k q)) [
        | inl b ↦ rw b (h.0, AllKeys-try_emplace P m p h.1)
        | inr e ↦ rw e h
      ])
    ]

    pub IsSorted-try_emplace :
        (m : OrderedMap K V) → IsSorted o m → IsSorted o (try_emplace o q w m)
    unfolding try_emplace
    IsSorted-try_emplace [] s = (tt, tt)
    IsSorted-try_emplace ((k, v) ∷ m) s = elim (Bool-cases (o.before q k)) [
      | inl b ↦ rw b ((b, AllKeys-mono m (λ j. o.transitive q k j b) s.0), s)
      | inr n ↦ rw n (elim (Bool-cases (o.before k q)) [
        | inl b ↦
            rw b
              (AllKeys-try_emplace (λ j. o.before k j ≡ true) m b s.0, IsSorted-try_emplace m s.1)
        | inr e ↦ rw e s
      ])
    ]

    -- The first value for a key stays.
    pub find-try_emplace :
        (p : K) (m : OrderedMap K V)
        → IsSorted o m
        → find o p (try_emplace o q w m)
          ≡ (if same o p q then or_else (find o q m) (some w) else find o p m)
    unfolding try_emplace find or_else
    find-try_emplace p [] s = refl
    find-try_emplace p ((k, v) ∷ m) s = elim (Bool-cases (o.before q k)) [
      | inl b ↦
          let absent = find_after q m (AllKeys-mono m (λ j. o.transitive q k j b) s.0) in
          rw (b, absent) (ground arith)
      | inr n ↦
          ground (arith, find-try_emplace p m, o.connected q k, eq_of_same o p k, eq_of_same o p q)
    ]

  pub find-erase :
      (q p : K) (m : OrderedMap K V)
      → IsSorted o m
      → find o p (erase o q m) ≡ (if same o p q then none else find o p m)
  unfolding erase find
  find-erase q p [] s = ground arith
  find-erase q p ((k, v) ∷ m) s =
      ground (arith, find-erase q p m, eq_of_same o q k, eq_of_same o p k, find_after k m)

  pub AllKeys-erase :
      (P : K → Type 0) (q : K) (m : OrderedMap K V) → AllKeys P m → AllKeys P (erase o q m)
  unfolding erase
  AllKeys-erase P q [] h = tt
  AllKeys-erase P q ((k, v) ∷ m) h = elim (Bool-cases (same o q k)) [
    | inl s ↦ rw s h.1
    | inr n ↦ rw n (h.0, AllKeys-erase P q m h.1)
  ]

  pub IsSorted-erase : (q : K) (m : OrderedMap K V) → IsSorted o m → IsSorted o (erase o q m)
  unfolding erase
  IsSorted-erase q [] s = tt
  IsSorted-erase q ((k, v) ∷ m) s = elim (Bool-cases (same o q k)) [
    | inl e ↦ rw e s.1
    | inr n ↦ rw n (AllKeys-erase (λ j. o.before k j ≡ true) q m s.0, IsSorted-erase q m s.1)
  ]

  pub length-erase :
      (q : K) (m : OrderedMap K V) {v : V}
      → find o q m ≡ some v
      → length (erase o q m) + 1 ≡ length m
  unfolding erase find
  length-erase q [] e = cc
  length-erase q ((k, v) ∷ m) e = elim (Bool-cases (same o q k)) [
    | inl s ↦ rw s (omega arith)
    | inr n ↦ rw n (omega (arith, length-erase q m (rw n at e)))
  ]

  pub find-assign :
      (q p : K) (w : V) (m : OrderedMap K V) {v : V}
      → find o q m ≡ some v
      → find o p (assign o q w m) ≡ (if same o p q then some w else find o p m)
  unfolding assign find
  find-assign q p w [] e = cc
  find-assign q p w ((k, v) ∷ m) {v = u} e =
      ground
        (arith, find-assign q p w m {v = u}, eq_of_same o q k, eq_of_same o p k, eq_of_same o p q)
