-- ===== src/Replay.antt =====
-- include/efe/replay.hpp and src/replay.cpp: a capture handed to a callback, record by record. The
-- speed is a floating-point number, of which the options keep what is asked of it; sleeping and the
-- prompt are not modelled.
pub mod Returns
pub mod Steps
pub mod Written
mod Tests
use market_wire.Prelude.{
  ℕ, zero, suc, ◌+◌, ◌-◌, Bool, true, false, ◌&&◌, not, Option, none, some, List, [], ◌∷◌, ltb,
  if◌then◌else◌, length, ◌==◌,
}
use market_wire.Prelude.Result.{
  Result, ok, throw, undefined, ◌>>=◌, ◌>>◌, not_monotonic, invalid_speed, delay_too_large,
  step_input_ended,
}
use market_wire.Capture.{CaptureRecord, open_reader, next}
use market_wire.Wire.{ByteList}

pub data ReplayMode : Type 0 where
  max_speed realtime scaled step : ReplayMode

-- `too_long` says of a delay that, divided by the speed, it exceeds what can be waited for;
-- `step_input` is what the stream of key strokes has left.
pub record ReplayOptions : Type 0 where
  pub mode : ReplayMode
  pub speed_is_positive : Bool
  pub too_long : ℕ → Bool
  pub step_input : ByteList

abbrev pub is_scaled : ReplayMode → Bool
is_scaled max_speed = false
is_scaled realtime = false
is_scaled scaled = true
is_scaled step = false

-- `if (prev) { … }`: the check of the time stamps, and the delay
unfoldable pub check_delay : ReplayOptions → Option ℕ → ℕ → Result (Unit {0})
check_delay o none ns = ok tt
check_delay o (some prev) ns =
    if ltb ns prev
    then throw not_monotonic
    else if is_scaled o.mode && (ltb 0 (ns - prev) && o.too_long (ns - prev))
    then throw delay_too_large
    else ok tt

-- `if (!input.get()) throw …`: `get()` without an argument returns the character as a number, and at the
-- end of the stream -1, which is not zero. So the exception is thrown on a NUL byte, and never at the
-- end of the stream.
abbrev pub take_input : ReplayOptions → ByteList → Result ReplayOptions
take_input o [] = ok o
take_input o (c ∷ rest) =
    if c == 0 then throw step_input_ended else ok (record o { step_input = rest })

-- `if (o.mode == ReplayMode::Step) { … }`
abbrev pub wait_in : ReplayMode → ReplayOptions → Result ReplayOptions
wait_in max_speed o = ok o
wait_in realtime o = ok o
wait_in scaled o = ok o
wait_in step o = take_input o o.step_input

unfoldable pub wait_for_step : ReplayOptions → Result ReplayOptions
wait_for_step o = wait_in o.mode o

-- A callback leaves what it works on, and how it ended.
abbrev pub Callback : Type 0 → Type 0
Callback S = CaptureRecord → S → S × Result (Unit {0})

module _ {S : Type 0} where
  abbrev pub on_ok : {A B : Type 0} → S → Result A → (A → S × Result B) → S × Result B
  on_ok s (ok a) k = k a
  on_ok s (throw e) k = (s, throw e)
  on_ok s undefined k = (s, undefined)

  abbrev pub called : {B : Type 0} → S × Result (Unit {0}) → (S → S × Result B) → S × Result B
  called (s, done) k = on_ok s done (λ u. k s)

  abbrev pub on_next :
      S
      → ℕ
      → Option (CaptureRecord × ByteList)
      → (CaptureRecord → ByteList → S × Result ℕ)
      → S × Result ℕ
  on_next s count none k = (s, ok count)
  on_next s count (some (r, rest)) k = k r rest

  -- The loop, on fuel: each record takes bytes of the file.
  unfoldable pub run_loop :
      ℕ → ReplayOptions → Callback S → Option ℕ → ℕ → ByteList → S → S × Result ℕ
  unfolding next check_delay wait_for_step
  run_loop zero o cb prev count in_ s = (s, undefined)
  run_loop (suc fuel) o cb prev count in_ s = on_ok s (next in_) λ found.
      on_next s count found λ r rest.
        on_ok s (check_delay o prev r.monotonic_ns >> wait_for_step o)
          λ o1. called (cb r s) λ s1. run_loop fuel o1 cb (some r.monotonic_ns) (count + 1) rest s1

  -- `ReplayEngine::run` on the bytes of the file
  unfoldable pub run : ByteList → ReplayOptions → Callback S → S → S × Result ℕ
  unfolding open_reader run_loop
  run file o cb s =
      if is_scaled o.mode && not o.speed_is_positive
      then (s, throw invalid_speed)
      else on_ok s (open_reader file) λ in_. run_loop (length file + 1) o cb none 0 in_ s
