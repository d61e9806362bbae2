-- ===== src/Prelude/Ends.antt =====
-- Calls that return or throw, with what is known of the value.
use market_wire.Prelude.{Bool, true, false, if◌then◌else◌}
use market_wire.Prelude.Result.{Result, ok, throw, Failure, ◌>>=◌}

-- A call ends with a value as described, or in an exception, and never runs out of fuel.
pub data Ends {A : Type 0} (Q : A → Type 0) : Result A → Type 0 where
  good : {a : A} → Q a → Ends Q (ok a)
  failed : {e : Failure} → Ends Q (throw e)

module _ {A : Type 0} {Q : A → Type 0} where
  pub Ends-if : {x y : Result A} (b : Bool) → Ends Q x → Ends Q y → Ends Q (if b then x else y)
  Ends-if true x y = x
  Ends-if false x y = y

  pub Ends-map : {R : A → Type 0} {r : Result A} → Ends Q r → ((a : A) → Q a → R a) → Ends R r
  Ends-map (good q) k = good (k _ q)
  Ends-map failed k = failed

  pub Ends-bind :
      {B : Type 0} {R : B → Type 0} {r : Result A} {f : A → Result B}
      → Ends Q r
      → ((a : A) → Q a → Ends R (f a))
      → Ends R (r >>= f)
  Ends-bind (good q) k = k _ q
  Ends-bind failed k = failed
