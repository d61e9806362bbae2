-- ===== src/Replay/Returns.antt =====
-- A replay ends on every file.
use market_wire.Prelude.{
  ℕ, zero, suc, ◌+◌, ◌-◌, ◌<◌, ◌≤◌, ◌≢◌, refl, not, ◌&&◌, Option, none, some, [], ◌∷◌, arith,
  length, ltb, ◌==◌, length-drop, Bool-cases, inl, inr, drop, take,
}
use market_wire.Prelude.Ends.{Ends, good, failed, Ends-if, Ends-bind}
use market_wire.Prelude.Result.{
  Result, ok, throw, undefined, Failure, ◌>>◌, truncated_timestamp, truncated_length,
  truncated_payload, not_monotonic, delay_too_large, not_a_capture,
}
use market_wire.Capture.{
  CaptureRecord, read_bytes, read_u32, read_u64, read_record, open_reader, next, magic,
}
use market_wire.Replay.{
  ReplayMode, max_speed, realtime, scaled, step, ReplayOptions, is_scaled, check_delay, take_input,
  wait_in, wait_for_step, Callback, on_ok, on_next, called, run_loop, run,
}
use market_wire.Wire.{ByteList, bytes_equal}

-- What is left of the input is at most the bound.
abbrev Leaves : {A : Type 0} → ℕ → A × ByteList → Type 0
Leaves bound r = length r.1 ≤ bound

read_bytes-Ends :
    (n : ℕ) (e : Failure) (in_ : ByteList) → Ends (Leaves (length in_ - n)) (read_bytes n e in_)
read_bytes-Ends n e in_ = Ends-if _ failed (good (omega (arith, length-drop n in_)))

read_u64-Ends : (in_ : ByteList) → Ends (Leaves (length in_ - 8)) (read_u64 in_)
unfolding read_u64
read_u64-Ends in_ = Ends-bind (read_bytes-Ends 8 truncated_timestamp in_) λ b h. good h

read_u32-Ends : (in_ : ByteList) → Ends (Leaves (length in_ - 4)) (read_u32 in_)
unfolding read_u32
read_u32-Ends in_ = Ends-bind (read_bytes-Ends 4 truncated_length in_) λ b h. good h

read_record-Ends : (in_ : ByteList) → Ends (Leaves (length in_ - 12)) (read_record in_)
unfolding read_record
read_record-Ends in_ = Ends-bind (read_u64-Ends in_) λ a h. Ends-bind (read_u32-Ends a.1) λ b h1.
    Ends-if _ failed
      (Ends-bind (read_bytes-Ends b.0 truncated_payload b.1) λ d h2. good (omega arith))

-- A record that is found leaves less of the file.
abbrev Found : ByteList → Option (CaptureRecord × ByteList) → Type 0
Found in_ none = Unit {0}
Found in_ (some (r, rest)) = length rest < length in_

next-Ends : (in_ : ByteList) → Ends (Found in_) (next in_)
unfolding next
next-Ends [] = good tt
next-Ends (c ∷ in_) = Ends-bind (read_record-Ends (c ∷ in_)) λ r h. good (omega arith)

check_delay-Ends :
    (o : ReplayOptions) (prev : Option ℕ) (ns : ℕ) → Ends (λ u. Unit {0}) (check_delay o prev ns)
unfolding check_delay
check_delay-Ends o none ns = good tt
check_delay-Ends o (some prev) ns =
    let delay = ns - prev in
    Ends-if (ltb ns prev) (failed {e = not_monotonic}) (
      Ends-if (is_scaled o.mode && (ltb 0 delay && o.too_long delay)) (failed {e = delay_too_large})
        (good tt))

take_input-Ends :
    (o : ReplayOptions) (input : ByteList) → Ends (λ o1. Unit {0}) (take_input o input)
take_input-Ends o [] = good tt
take_input-Ends o (c ∷ rest) = Ends-if (c == 0) failed (good tt)

wait_in-Ends : (mode : ReplayMode) (o : ReplayOptions) → Ends (λ o1. Unit {0}) (wait_in mode o)
wait_in-Ends max_speed o = good tt
wait_in-Ends realtime o = good tt
wait_in-Ends scaled o = good tt
wait_in-Ends step o = take_input-Ends o o.step_input

ready-Ends :
    (o : ReplayOptions) (prev : Option ℕ) (ns : ℕ)
    → Ends (λ o1. Unit {0}) (check_delay o prev ns >> wait_for_step o)
unfolding wait_for_step
ready-Ends o prev ns = Ends-bind (check_delay-Ends o prev ns) λ u t. wait_in-Ends o.mode o

open_reader-Ends : (file : ByteList) → Ends (λ in_. length in_ ≤ length file) (open_reader file)
unfolding open_reader
open_reader-Ends file = Ends-if (ltb (length file) 4) (failed {e = not_a_capture}) (
    Ends-if (not (bytes_equal (take 4 file) magic)) (failed {e = not_a_capture})
      (good {a = drop 4 file} (omega (arith, length-drop 4 file))))

module _ {S : Type 0} where
  abbrev Returned : {B : Type 0} → S × Result B → Type 0
  Returned r = r.1 ≢ undefined

  on_ok-Returned :
      {A B : Type 0} {Q : A → Type 0} {r : Result A} (s : S) (k : A → S × Result B)
      → Ends Q r
      → ((a : A) → Q a → Returned (k a))
      → Returned (on_ok s r k)
  on_ok-Returned s k (good q) h = h _ q
  on_ok-Returned s k failed h = λ e. cc

  called-Returned :
      {B : Type 0} (c : S × Result (Unit {0})) (k : S → S × Result B)
      → Returned c
      → ((s : S) → Returned (k s))
      → Returned (called c k)
  called-Returned (s, ok u) k r h = h s
  called-Returned (s, throw e) k r h = λ e. cc
  called-Returned (s, undefined) k r h = absurd (r refl)

  on_next-Returned :
      (in_ : ByteList) (s : S) (count : ℕ) (found : Option (CaptureRecord × ByteList))
      (k : CaptureRecord → ByteList → S × Result ℕ)
      → Found in_ found
      → ((r : CaptureRecord) (rest : ByteList) → length rest < length in_ → Returned (k r rest))
      → Returned (on_next s count found k)
  on_next-Returned in_ s count none k less h = λ e. cc
  on_next-Returned in_ s count (some (r, rest)) k less h = h r rest less

  module _ (cb : Callback S) (returns : (r : CaptureRecord) (s : S) → (cb r s).1 ≢ undefined) where
    run_loop-Returned :
        (fuel : ℕ) (o : ReplayOptions) (prev : Option ℕ) (count : ℕ) (in_ : ByteList) (s : S)
        → length in_ < fuel
        → Returned (run_loop fuel o cb prev count in_ s)
    unfolding run_loop
    run_loop-Returned zero o prev count in_ s enough = absurd (omega arith)
    run_loop-Returned (suc fuel) o prev count in_ s enough =
        on_ok-Returned s _ (next-Ends in_) λ found less.
          on_next-Returned in_ s count found _ less λ r rest shorter.
            on_ok-Returned s _ (ready-Ends o prev r.monotonic_ns) λ o1 t.
              called-Returned (cb r s)
                (λ s1. run_loop fuel o1 cb (some r.monotonic_ns) (count + 1) rest s1) (returns r s)
                λ s1.
                  run_loop-Returned fuel o1 (some r.monotonic_ns) (count + 1) rest s1 (omega arith)

    -- A replay of any file, in any mode, ends with a count or an exception, if the callback does: the fuel
    -- of its loop, one more than the bytes of the file, is enough.
    pub run-returns :
        (file : ByteList) (o : ReplayOptions) (s : S) → (run file o cb s).1 ≢ undefined
    unfolding run
    run-returns file o s = elim (Bool-cases (is_scaled o.mode && not o.speed_is_positive)) [
      | inl bad ↦ rw bad (λ e. cc)
      | inr fine ↦ rw fine (
          on_ok-Returned s _ (open_reader-Ends file)
            λ in_ shorter. run_loop-Returned (length file + 1) o none 0 in_ s (omega arith))
    ]
