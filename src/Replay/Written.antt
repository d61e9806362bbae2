-- ===== src/Replay/Written.antt =====
-- A replay of a written capture hands its records to the callback, in order.
use market_wire.Prelude.{
  ℕ, zero, suc, ◌+◌, ◌<◌, ◌≤◌, ◌≡◌, refl, Bool, true, false, Option, none, some, List, [], ◌∷◌,
  ◌++◌, All, arith, length-append, length, ltb,
}
use market_wire.Prelude.Result.{Result, ok, throw, undefined, ◌>>◌}
use market_wire.Capture.{CaptureRecord, open_writer}
use market_wire.Capture.RoundTrip.{
  IsRecord, layout, write_all, write_all-layout, layout-longer, next-layout, next_end,
  open_reader-layout,
}
use market_wire.Replay.{
  ReplayMode, max_speed, realtime, scaled, step, ReplayOptions, is_scaled, check_delay,
  wait_for_step, Callback, called, run_loop, run,
}
use market_wire.Wire.{ByteList}

-- The modes in which neither a delay nor a key stroke can end the replay.
abbrev pub is_free : ReplayMode → Bool
is_free max_speed = true
is_free realtime = true
is_free scaled = false
is_free step = false

abbrev pub Later : Option ℕ → ℕ → Type 0
Later none ns = Unit {0}
Later (some prev) ns = prev ≤ ns

-- The time stamps do not fall.
abbrev pub Rises : Option ℕ → List CaptureRecord → Type 0
Rises prev [] = Unit {0}
Rises prev (r ∷ rs) = Later prev r.monotonic_ns × Rises (some r.monotonic_ns) rs

free_not_scaled : (mode : ReplayMode) → is_free mode ≡ true → is_scaled mode ≡ false
free_not_scaled max_speed f = refl
free_not_scaled realtime f = refl
free_not_scaled scaled f = cc
free_not_scaled step f = cc

free_check :
    (mode : ReplayMode) (o : ReplayOptions) (prev : Option ℕ) (ns : ℕ)
    → o.mode ≡ mode
    → is_free mode ≡ true
    → Later prev ns
    → (check_delay o prev ns >> wait_for_step o) ≡ ok o
unfolding check_delay wait_for_step
free_check max_speed o none ns e f h = rw e refl
free_check max_speed o (some prev) ns e f h =
    let late : ltb ns prev ≡ false = ground arith in rw (late, e) refl
free_check realtime o none ns e f h = rw e refl
free_check realtime o (some prev) ns e f h =
    let late : ltb ns prev ≡ false = ground arith in rw (late, e) refl
free_check scaled o prev ns e f h = cc
free_check step o prev ns e f h = cc

module _ {S : Type 0} where
  -- The callback on one record after another, up to its first exception.
  unfoldable pub calls : Callback S → List CaptureRecord → ℕ → S → S × Result ℕ
  calls cb [] count s = (s, ok count)
  calls cb (r ∷ rs) count s = called (cb r s) λ s1. calls cb rs (count + 1) s1

  pub called-congr :
      {B : Type 0} (c : S × Result (Unit {0})) (k l : S → S × Result B)
      → ((s : S) → k s ≡ l s)
      → called c k ≡ called c l
  called-congr (s, ok u) k l h = h s
  called-congr (s, throw e) k l h = refl
  called-congr (s, undefined) k l h = refl

  module _ (o : ReplayOptions) (cb : Callback S) (free : is_free o.mode ≡ true) where
    run_loop-calls :
        (fuel : ℕ) (prev : Option ℕ) (rs : List CaptureRecord) (count : ℕ) (s : S)
        → length (layout rs) < fuel
        → All IsRecord rs
        → Rises prev rs
        → run_loop fuel o cb prev count (layout rs) s ≡ calls cb rs count s
    unfolding run_loop calls
    run_loop-calls zero prev rs count s enough h rise = absurd (omega arith)
    run_loop-calls (suc fuel) prev [] count s enough h rise = rw next_end refl
    run_loop-calls (suc fuel) prev (r ∷ rs) count s enough h rise =
        let free_here = free_check o.mode o prev r.monotonic_ns refl free rise.0 in
        rw (next-layout r rs h.0) (
          rw free_here (
            called-congr (cb r s) _ _ λ s1.
              run_loop-calls fuel (some r.monotonic_ns) rs (count + 1) s1
                (omega (arith, layout-longer r rs)) h.1 rise.1))

    -- Records with 64-bit time stamps that do not fall, and with datagrams within the limit, are written
    -- without an exception, and a replay of the file, at full speed or in real time, comes to the callback on
    -- each record in order, up to the callback's first exception; the records are counted.
    pub run-write_all :
        (rs : List CaptureRecord) (s : S)
        → All IsRecord rs
        → Rises none rs
        → (file : ByteList) × (write_all rs open_writer ≡ ok file)
          × (run file o cb s ≡ calls cb rs 0 s)
    unfolding run
    run-write_all rs s h rise =
        let file = open_writer ++ layout rs in
        let enough : length (layout rs) < length file + 1 =
          omega (arith, length-append {0} open_writer (layout rs)) in
        let opened = open_reader-layout rs in
        let loop = run_loop-calls (length file + 1) none rs 0 s enough h rise in
        (file, write_all-layout rs open_writer h, rw (free_not_scaled o.mode free) (rw opened loop))
