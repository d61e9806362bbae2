-- ===== src/Book/Arena/Insertions.antt =====
-- A free slot is taken for a new id, and an order in use gets a new id.
use market_wire.Prelude.{
  ℕ, ◌<◌, ◌≡◌, ◌≢◌, refl, ◌∙◌, sym, ap, true, false, none, some, List, ◌∷◌, arith, length, ◌==◌,
  Bool-cases, inl, inr, ==_iff, ==_refl, if◌then◌else◌,
}
use market_wire.OrderIndex
use market_wire.OrderIndex.{FlatOrderIndex, invalid_slot}
use market_wire.OrderIndex.Erase.{erase-Removes, is_some}
use market_wire.OrderIndex.Runs.{IsMade-kept}
use market_wire.Book.{SymbolBook, Slot, OrderBook, slot_at}
use market_wire.Book.Arena.{IsArena}
use market_wire.Book.Arena.Moves.{
  Alters, FreeList-Alters, Lives-Alters, away, find-inserted, inserted-IsMade, size-inserted,
  other_slot, other_id,
}
use market_wire.Events.{Symbol}
use market_wire.OrderedMap.{OrderedMap}

module _ (b : OrderBook) (x : ℕ) (rest : List ℕ) (h : IsArena b (x ∷ rest)) where
  -- A slot in use is not the first free one.
  not_free : (w : ℕ) → (slot_at b.slots w).alive ≡ true → x ≢ w
  not_free w alive e =
      let dead : (slot_at b.slots w).alive ≡ false = rw e at h.chain.2 in cc (sym dead ∙ alive)

  module _ (id : ℕ) (absent : OrderIndex.find b.index id ≡ none) where
    pub take-IsArena :
        (slots : List Slot)
        → Alters b.slots slots x
        → (slot_at slots x).alive ≡ true
        → (slot_at slots x).order.id ≡ id
        → IsArena
            (record b {
              slots = slots;
              free_head = (slot_at b.slots x).next_free;
              index = (OrderIndex.insert b.index id x).0;
            })
            rest
    take-IsArena slots k alive named =
        let finds = find-inserted b (x ∷ rest) h id x absent in
        record {
          small = rw k.size h.small;
          made = rw k.size (inserted-IsMade b (x ∷ rest) h id x absent);
          chain = FreeList-Alters (slot_at b.slots x).next_free rest k h.distinct.0 h.chain.3;
          distinct = h.distinct.1;
          count = rw k.size (omega (arith, h.count, size-inserted b (x ∷ rest) h id x absent));
          ids = λ q w sought. elim (Bool-cases (q == id)) [
            | inl same ↦
                let here : some x ≡ some w = rw same at (sym (finds q) ∙ sought) in
                let e : x ≡ w = cc in
                let name : q ≡ id = (==_iff q id).0 same in
                rw (sym e)
                  (record { inside = rw k.size h.chain.1; alive = alive; named = named ∙ sym name })
            | inr other ↦
                let before : OrderIndex.find b.index q ≡ some w =
                  rw other at (sym (finds q) ∙ sought) in
                let l = h.ids q w before in Lives-Alters q w k (not_free w l.alive) l
          ];
          known = λ w inside live. elim (Bool-cases (x == w)) [
            | inl same ↦
                let e : x ≡ w = (==_iff x w).0 same in
                rw (sym e) (rw named (finds id ∙ rw (==_refl id) refl))
            | inr other ↦
                let ne : x ≢ w = λ e. ground (arith, other, e) in
                let f = k.others w ne in
                let was = h.known w (rw k.size at inside) (sym (ap (λ f. f.1) f) ∙ live) in
                let fresh : (slot_at b.slots w).order.id ≢ id =
                  λ e. cc (sym was ∙ ap (OrderIndex.find b.index) e ∙ absent) in
                let not_id : ((slot_at b.slots w).order.id == id) ≡ false = ground (arith, fresh) in
                ap (OrderIndex.find (OrderIndex.insert b.index id x).0) (ap (λ f. f.0.0) f)
                ∙ finds (slot_at b.slots w).order.id
                ∙ rw not_id was
          ];
        }

module _ (b : OrderBook) (free : List ℕ) (h : IsArena b free) (old new v : ℕ)
    (found : OrderIndex.find b.index old ≡ some v)
    (absent : OrderIndex.find b.index new ≡ none) where
  abbrev pub renamed : FlatOrderIndex
  renamed = (OrderIndex.erase (OrderIndex.insert b.index new v).0 old).0

  different : new ≢ old
  different e = cc (sym absent ∙ ap (OrderIndex.find b.index) e ∙ found)

  find-renamed :
      (q : ℕ)
      → OrderIndex.find renamed q
        ≡ (if q == old then none else if q == new then some v else OrderIndex.find b.index q)
  find-renamed q =
      let r =
        erase-Removes (OrderIndex.insert b.index new v).0 old
          (inserted-IsMade b free h new v absent).valid in
      r.finds q ∙ rw (find-inserted b free h new v absent q) refl

  size-renamed : renamed.size ≡ b.index.size
  size-renamed =
      let made = inserted-IsMade b free h new v absent in
      let r = erase-Removes (OrderIndex.insert b.index new v).0 old made.valid in
      let not_new : (old == new) ≡ false = ground (arith, different) in
      let there : OrderIndex.find (OrderIndex.insert b.index new v).0 old ≡ some v =
        find-inserted b free h new v absent old ∙ rw not_new found in
      let taken : (OrderIndex.erase (OrderIndex.insert b.index new v).0 old).1 ≡ true =
        r.answers ∙ ap is_some there in
      let less = rw taken at r.size in omega (arith, less, size-inserted b free h new v absent)

  pub rename-IsArena :
      (slots : List Slot) (books : OrderedMap Symbol SymbolBook)
      → Alters b.slots slots v
      → (slot_at slots v).alive ≡ true
      → (slot_at slots v).order.id ≡ new
      → IsArena (record b { slots = slots; books = books; index = renamed }) free
  rename-IsArena slots books k alive named =
      let l = h.ids old v found in
      let made = inserted-IsMade b free h new v absent in
      let r = erase-Removes (OrderIndex.insert b.index new v).0 old made.valid in
      let gone = away b.slots v b.free_head free l.alive h.chain in
      let not_old : (new == old) ≡ false = ground (arith, different) in
      record {
        small = rw k.size h.small;
        made = rw k.size (IsMade-kept (length b.slots) made r.valid r.capacity);
        chain = FreeList-Alters b.free_head free k gone h.chain;
        distinct = h.distinct;
        count = rw k.size (omega (arith, h.count, size-renamed));
        ids = λ q w sought. elim (Bool-cases (q == old)) [
          | inl is_old ↦ absurd (cc (rw is_old at (sym (find-renamed q) ∙ sought)))
          | inr other ↦ elim (Bool-cases (q == new)) [
            | inl same ↦
                let here : some v ≡ some w = rw (other, same) at (sym (find-renamed q) ∙ sought) in
                let e : v ≡ w = cc in
                let name : q ≡ new = (==_iff q new).0 same in
                rw (sym e)
                  (record { inside = rw k.size l.inside; alive = alive; named = named ∙ sym name })
            | inr still ↦
                let before : OrderIndex.find b.index q ≡ some w =
                  rw (other, still) at (sym (find-renamed q) ∙ sought) in
                Lives-Alters q w k
                  (other_slot b free h old v q w found before (λ e. ground (arith, other, e)))
                  (h.ids q w before)
          ]
        ];
        known = λ w inside live. elim (Bool-cases (v == w)) [
          | inl same ↦
              let e : v ≡ w = (==_iff v w).0 same in
              rw (sym e) (rw named (find-renamed new ∙ rw (not_old, ==_refl new) refl))
          | inr other ↦
              let ne : v ≢ w = λ e. ground (arith, other, e) in
              let f = k.others w ne in
              let was_inside : w < length b.slots = rw k.size at inside in
              let was_alive = sym (ap (λ f. f.1) f) ∙ live in
              let was = h.known w was_inside was_alive in
              let fresh = other_id b free h old v w found ne was_inside was_alive in
              let unseen : (slot_at b.slots w).order.id ≢ new =
                λ e. cc (sym was ∙ ap (OrderIndex.find b.index) e ∙ absent) in
              let no_old : ((slot_at b.slots w).order.id == old) ≡ false = ground (arith, fresh) in
              let no_new : ((slot_at b.slots w).order.id == new) ≡ false = ground (arith, unseen) in
              ap (OrderIndex.find renamed) (ap (λ f. f.0.0) f)
              ∙ find-renamed (slot_at b.slots w).order.id
              ∙ rw (no_old, no_new) was
        ];
      }
