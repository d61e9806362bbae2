-- ===== src/OrderIndex/Runs.antt =====
-- Sequences of operations on a `FlatOrderIndex`: with no more keys than it was made for, it is a map.
use market_wire.Prelude.{
  ℕ, suc, ◌+◌, ◌-◌, ◌^◌, ◌<◌, ◌≤◌, ◌≡◌, refl, ◌∙◌, sym, ap, inl, inr, Bool, true, false, Option,
  none, some, not, Bool-cases, List, [], ◌∷◌, arith, length, if◌then◌else◌, ◌==◌, ==_iff,
}
use market_wire.OrderIndex.{FlatOrderIndex, find, insert, erase, new_index}
use market_wire.OrderIndex.Adds.{Inserts, insert-Inserts}
use market_wire.OrderIndex.Erase.{is_some, Removes, erase-Removes}
use market_wire.OrderIndex.Probe.{IsValid}
use market_wire.OrderIndex.Capacity.{IsMade, has_room_lem, new_index-IsMade, new_index_empty}

pub data Operation : Type 0 where
  insertion : ℕ → ℕ → Operation
  erasure : ℕ → Operation

abbrev pub operate : Operation → FlatOrderIndex → FlatOrderIndex × Bool
operate (insertion key value) t = insert t key value
operate (erasure key) t = erase t key

abbrev pub run_all : List Operation → FlatOrderIndex → FlatOrderIndex × List Bool
run_all [] t = (t, [])
run_all (o ∷ os) t = let rest = run_all os (operate o t).0 in (rest.0, (operate o t).1 ∷ rest.1)

-- The map that the index stands for, and how many keys it has.
abbrev pub KeyMap : Type 0
KeyMap = (ℕ → Option ℕ) × ℕ

abbrev pub model : Operation → KeyMap → KeyMap × Bool
model (insertion key value) (f, n) =
    if is_some (f key)
    then ((f, n), false)
    else (((λ q. if q == key then some value else f q), suc n), true)
model (erasure key) (f, n) =
    if is_some (f key)
    then (((λ q. if q == key then none else f q), n - 1), true)
    else ((f, n), false)

abbrev pub model_all : List Operation → KeyMap → KeyMap × List Bool
model_all [] s = (s, [])
model_all (o ∷ os) s = let rest = model_all os (model o s).0 in (rest.0, (model o s).1 ∷ rest.1)

-- No operation starts with more than `m` keys in the map.
abbrev pub Fits : ℕ → List Operation → KeyMap → Type 0
Fits m [] s = Unit
Fits m (o ∷ os) s = (s.1 ≤ m) × Fits m os (model o s).0

record Agrees (m : ℕ) (t : FlatOrderIndex) (s : KeyMap) : Type 0 where
  made : IsMade m t
  finds : (q : ℕ) → find t q ≡ s.0 q
  size : t.size ≡ s.1

pub IsMade-kept :
    (m : ℕ) {t t' : FlatOrderIndex}
    → IsMade m t
    → IsValid t'
    → length t'.entries ≡ length t.entries
    → IsMade m t'
IsMade-kept m made valid same = record {
  valid = valid;
  positive = rw same made.positive;
  twice = rw same made.twice;
}

insert-Agrees :
    (m key value : ℕ) (t t' : FlatOrderIndex) (answer : Bool) (f : ℕ → Option ℕ) (n : ℕ)
    → n ≤ m
    → Agrees m t (f, n)
    → Inserts t key value t' answer
    → Agrees m t' (model (insertion key value) (f, n)).0
      × (answer ≡ (model (insertion key value) (f, n)).1)
insert-Agrees m key value t t' answer f n le a r =
    let room = has_room_lem m t a.made (omega (arith, a.size)) in
    let made = IsMade-kept m a.made r.valid r.capacity in
    let answers : answer ≡ not (is_some (f key)) =
      r.answers ∙ rw (a.finds key, room) (ground arith) in
    elim (Bool-cases (is_some (f key))) [
      | inl there ↦
          let refused : answer ≡ false = answers ∙ rw there refl in
          rw there (
            record {
              made = made;
              finds = λ q. r.finds q ∙ rw refused (a.finds q);
              size = r.size ∙ rw refused (omega (arith, a.size));
            },
            refused,
          )
      | inr absent ↦
          let taken : answer ≡ true = answers ∙ rw absent refl in
          rw absent (
            record {
              made = made;
              finds = λ q. r.finds q ∙ rw (taken, a.finds q) refl;
              size = r.size ∙ rw taken (omega (arith, a.size));
            },
            taken,
          )
    ]

stays_absent :
    (o : Option ℕ) (q key : ℕ) (f : ℕ → Option ℕ)
    → is_some o ≡ false
    → f key ≡ o
    → (if q == key then none else f q) ≡ f q
stays_absent (some v) q key f h e = cc
stays_absent none q key f h e = elim (Bool-cases (q == key)) [
  | inl same ↦ rw same (sym e ∙ ap f (sym ((==_iff q key).0 same)))
  | inr other ↦ rw other refl
]

erase-Agrees :
    (m key : ℕ) (t t' : FlatOrderIndex) (answer : Bool) (f : ℕ → Option ℕ) (n : ℕ)
    → Agrees m t (f, n)
    → Removes t key t' answer
    → Agrees m t' (model (erasure key) (f, n)).0 × (answer ≡ (model (erasure key) (f, n)).1)
erase-Agrees m key t t' answer f n a r =
    let made = IsMade-kept m a.made r.valid r.capacity in
    let answers : answer ≡ is_some (f key) = r.answers ∙ ap is_some (a.finds key) in
    elim (Bool-cases (is_some (f key))) [
      | inl there ↦
          let taken : answer ≡ true = answers ∙ there in
          let less : t'.size + 1 ≡ t.size = rw taken at r.size in
          rw there (
            record {
              made = made;
              finds = λ q. r.finds q ∙ rw (a.finds q) refl;
              size = omega (arith, a.size, less);
            },
            taken,
          )
      | inr absent ↦
          let refused : answer ≡ false = answers ∙ absent in
          let same : t'.size + 0 ≡ t.size = rw refused at r.size in
          rw absent (
            record {
              made = made;
              finds = λ q. r.finds q ∙ rw (a.finds q) (stays_absent (f key) q key f absent refl);
              size = omega (arith, a.size, same);
            },
            refused,
          )
    ]

operate-Agrees :
    (m : ℕ) (o : Operation) (t : FlatOrderIndex) (s : KeyMap)
    → s.1 ≤ m
    → Agrees m t s
    → Agrees m (operate o t).0 (model o s).0 × ((operate o t).1 ≡ (model o s).1)
operate-Agrees m (insertion key value) t (f, n) le a =
    insert-Agrees m key value t _ _ f n le a (insert-Inserts t key value a.made.valid)
operate-Agrees m (erasure key) t (f, n) le a =
    erase-Agrees m key t _ _ f n a (erase-Removes t key a.made.valid)

run_all-Agrees :
    (m : ℕ) (os : List Operation) (t : FlatOrderIndex) (s : KeyMap)
    → Fits m os s
    → Agrees m t s
    → Agrees m (run_all os t).0 (model_all os s).0 × ((run_all os t).1 ≡ (model_all os s).1)
run_all-Agrees m [] t s fits a = (a, refl)
run_all-Agrees m (o ∷ os) t s fits a =
    let (a1, same) = operate-Agrees m o t s fits.0 a in
    let (a2, rest) = run_all-Agrees m os (operate o t).0 (model o s).0 fits.1 a1 in
    (a2, λ i. same i ∷ rest i)

-- A new index for `m` keys, with `m` below 2^32, behaves as a map under any sequence of insertions and
-- erasures that never starts an operation with more than `m` keys: every answer is the map's, and at
-- the end every key is found with the map's value.
pub new_index_refines :
    (m : ℕ) (os : List Operation)
    → m < 2 ^ 32
    → Fits m os ((λ q. none), 0)
    → ((run_all os (new_index m)).1 ≡ (model_all os ((λ q. none), 0)).1)
      × ((q : ℕ) → find (run_all os (new_index m)).0 q ≡ (model_all os ((λ q. none), 0)).0.0 q)
unfolding new_index
new_index_refines m os lt fits =
    let start : Agrees m (new_index m) ((λ q. none), 0) = record {
      made = new_index-IsMade m lt;
      finds = new_index_empty m lt;
      size = refl;
    } in
    let (a, same) = run_all-Agrees m os (new_index m) ((λ q. none), 0) fits start in (same, a.finds)
