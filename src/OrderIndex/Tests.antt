-- ===== src/OrderIndex/Tests.antt =====
-- An index for four orders: evaluated, and the theorems about it applied.
use market_wire.Prelude.{ℕ, ◌≡◌, refl, arith, true, none, some, List, [], ◌∷◌}
use market_wire.OrderIndex.{FlatOrderIndex, new_index, find, insert, erase}
use market_wire.OrderIndex.Adds.{Inserts, insert-Inserts}
use market_wire.OrderIndex.Capacity.{new_index-IsMade}
use market_wire.OrderIndex.Erase.{Removes, erase-Removes}
use market_wire.OrderIndex.Probe.{IsValid}
use market_wire.OrderIndex.Runs.{
  Operation, insertion, erasure, run_all, model_all, new_index_refines,
}

abbrev fresh : FlatOrderIndex
fresh = new_index 4

fresh-IsValid : IsValid fresh
fresh-IsValid = (new_index-IsMade 4 (omega arith)).valid

abbrev one : FlatOrderIndex
one = (insert fresh 7 2).0

one-IsValid : IsValid one
one-IsValid = (insert-Inserts fresh 7 2 fresh-IsValid).valid

finds_it : find one 7 ≡ some 2
unfolding find insert new_index
finds_it = refl

erases_it : (erase one 7).1 ≡ true
unfolding erase insert new_index
erases_it = refl

insert-Inserts_example : Inserts one 9 3 (insert one 9 3).0 (insert one 9 3).1
insert-Inserts_example = insert-Inserts one 9 3 one-IsValid

erase-Removes_example : Removes one 7 (erase one 7).0 (erase one 7).1
erase-Removes_example = erase-Removes one 7 one-IsValid

abbrev operations : List Operation
operations = insertion 7 2 ∷ insertion 9 3 ∷ insertion 7 4 ∷ erasure 7 ∷ erasure 7 ∷ []

new_index_refines_example :
    ((run_all operations (new_index 4)).1 ≡ (model_all operations ((λ q. none), 0)).1)
    × ((q : ℕ)
        → find (run_all operations (new_index 4)).0 q
          ≡ (model_all operations ((λ q. none), 0)).0.0 q)
new_index_refines_example = new_index_refines 4 operations (omega arith) (omega arith)
