-- ===== src/Replay/Steps.antt =====
-- Step mode: the replay goes on when the input of key strokes has ended.
use market_wire.Prelude.{
  ℕ, zero, suc, ◌+◌, ◌<◌, ◌≡◌, ◌≢◌, refl, ap, ◌∙◌, false, Option, none, some, List, [], ◌∷◌, ◌++◌,
  All, arith, length-append, length, ltb, ◌==◌,
}
use market_wire.Prelude.Result.{ok, ◌>>◌}
use market_wire.Capture.{CaptureRecord, open_writer}
use market_wire.Capture.RoundTrip.{
  IsRecord, layout, write_all, write_all-layout, layout-longer, next-layout, next_end,
  open_reader-layout,
}
use market_wire.Replay.{
  ReplayOptions, step, check_delay, take_input, wait_for_step, is_scaled, wait_in, Callback,
  run_loop, run,
}
use market_wire.Replay.Written.{Later, Rises, calls, called-congr}
use market_wire.Wire.{ByteList}

abbrev pub HasNoNull : ReplayOptions → Type 0
HasNoNull o = All (λ c. c ≢ 0) o.step_input

-- A key stroke, or none, lets the loop go on.
Steps : ReplayOptions → ReplayOptions → Type 0
Steps o o1 = (o1.mode ≡ step) × HasNoNull o1

take_input-Steps :
    (o : ReplayOptions) (input : ByteList)
    → o.mode ≡ step
    → HasNoNull o
    → o.step_input ≡ input
    → (o1 : ReplayOptions) × (take_input o input ≡ ok o1) × Steps o o1
unfolding Steps
take_input-Steps o [] e h same = (o, refl, (e, h))
take_input-Steps o (c ∷ rest) e h same =
    let left : All (λ c. c ≢ 0) (c ∷ rest) = rw same at h in
    let stroke : (c == 0) ≡ false = ground (arith, left.0) in
    (record o { step_input = rest }, rw stroke refl, (e, left.1))

check_delay-step :
    (o : ReplayOptions) (prev : Option ℕ) (ns : ℕ)
    → o.mode ≡ step
    → Later prev ns
    → check_delay o prev ns ≡ ok tt
unfolding check_delay
check_delay-step o none ns e h = refl
check_delay-step o (some prev) ns e h =
    let late : ltb ns prev ≡ false = ground arith in rw (late, e) refl

wait-Steps :
    (o : ReplayOptions) (prev : Option ℕ) (ns : ℕ)
    → o.mode ≡ step
    → HasNoNull o
    → Later prev ns
    → (o1 : ReplayOptions) × ((check_delay o prev ns >> wait_for_step o) ≡ ok o1) × Steps o o1
unfolding wait_for_step
wait-Steps o prev ns e h later =
    let (o1, taken, steps) = take_input-Steps o o.step_input e h refl in
    (o1, rw (check_delay-step o prev ns e later) (ap (λ m. wait_in m o) e ∙ taken), steps)

module _ {S : Type 0} (cb : Callback S) where
  run_loop-step :
      (fuel : ℕ) (o : ReplayOptions) (prev : Option ℕ) (rs : List CaptureRecord) (count : ℕ) (s : S)
      → o.mode ≡ step
      → HasNoNull o
      → length (layout rs) < fuel
      → All IsRecord rs
      → Rises prev rs
      → run_loop fuel o cb prev count (layout rs) s ≡ calls cb rs count s
  unfolding run_loop calls Steps
  run_loop-step zero o prev rs count s e n enough h rise = absurd (omega arith)
  run_loop-step (suc fuel) o prev [] count s e n enough h rise = rw next_end refl
  run_loop-step (suc fuel) o prev (r ∷ rs) count s e n enough h rise =
      let (o1, ready, (e1, n1)) = wait-Steps o prev r.monotonic_ns e n rise.0 in
      rw (next-layout r rs h.0) (
        rw ready (
          called-congr (cb r s) _ _ λ s1.
            run_loop-step fuel o1 (some r.monotonic_ns) rs (count + 1) s1 e1 n1
              (omega (arith, layout-longer r rs)) h.1 rise.1))

  -- In step mode, with no NUL byte among the key strokes and however few of them there are, a replay of a
  -- written capture comes to the callback on each record in order, up to the callback's first
  -- exception: the end of the input does not end the replay. The records have 64-bit time stamps that
  -- do not fall, and datagrams within the limit.
  pub run-step :
      (o : ReplayOptions) (rs : List CaptureRecord) (s : S)
      → o.mode ≡ step
      → HasNoNull o
      → All IsRecord rs
      → Rises none rs
      → (file : ByteList) × (write_all rs open_writer ≡ ok file)
        × (run file o cb s ≡ calls cb rs 0 s)
  unfolding run
  run-step o rs s e n h rise =
      let file = open_writer ++ layout rs in
      let enough : length (layout rs) < length file + 1 =
        omega (arith, length-append {0} open_writer (layout rs)) in
      let not_scaled : is_scaled o.mode ≡ false = ap is_scaled e in
      let loop = run_loop-step (length file + 1) o none rs 0 s e n enough h rise in
      (file, write_all-layout rs open_writer h, rw (not_scaled, open_reader-layout rs) loop)
