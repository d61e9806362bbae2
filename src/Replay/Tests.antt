-- ===== src/Replay/Tests.antt =====
-- A capture of two datagrams, written, replayed and cut short.
use market_wire.Prelude.{◌≡◌, ◌≢◌, refl, arith, List, [], ◌∷◌, ◌++◌, true, false, take}
use market_wire.Prelude.Result.{
  ok, throw, undefined, not_a_capture, truncated_payload, step_input_ended,
}
use market_wire.Capture.{CaptureRecord, open_writer}
use market_wire.Capture.RoundTrip.{write_all}
use market_wire.Replay.{ReplayOptions, max_speed, step, Callback, run}
use market_wire.Replay.Returns.{run-returns}
use market_wire.Replay.Steps.{run-step}
use market_wire.Replay.Written.{calls, run-write_all}
use market_wire.Wire.{ByteList}

abbrev records : List CaptureRecord
records =
    record { monotonic_ns = 5; datagram = 1 ∷ 2 ∷ [] }
    ∷ record { monotonic_ns = 7; datagram = [] }
    ∷ []

abbrev file : ByteList
file =
    b'E' ∷ b'F' ∷ b'C' ∷ b'2' ∷ 0 ∷ 0 ∷ 0 ∷ 0 ∷ 0 ∷ 0 ∷ 0 ∷ 5 ∷ 0 ∷ 0 ∷ 0 ∷ 2 ∷ 1 ∷ 2 ∷ 0 ∷ 0 ∷ 0
    ∷ 0 ∷ 0 ∷ 0 ∷ 0 ∷ 7 ∷ 0 ∷ 0 ∷ 0 ∷ 0 ∷ []

-- A callback that keeps the datagrams.
abbrev keep : Callback (List ByteList)
keep r seen = (seen ++ (r.datagram ∷ []), ok tt)

abbrev fast : ReplayOptions
fast = record { mode = max_speed; speed_is_positive = true; too_long = λ d. false; step_input = [] }

abbrev stepped : ReplayOptions
stepped = record fast { mode = step; step_input = 10 ∷ [] }

abbrev null_stroke : ReplayOptions
null_stroke = record fast { mode = step; step_input = 10 ∷ 0 ∷ [] }

writes : write_all records open_writer ≡ ok file
unfolding write_all open_writer
writes = refl

replays : run file fast keep [] ≡ ((1 ∷ 2 ∷ []) ∷ [] ∷ [], ok 2)
unfolding run
replays = refl

-- The second packet is handed on although the input has ended.
goes_on : run file stepped keep [] ≡ ((1 ∷ 2 ∷ []) ∷ [] ∷ [], ok 2)
unfolding run
goes_on = refl

stops_at_null : run file null_stroke keep [] ≡ ((1 ∷ 2 ∷ []) ∷ [], throw step_input_ended)
unfolding run
stops_at_null = refl

cut_short : run (take 17 file) fast keep [] ≡ ([], throw truncated_payload)
unfolding run
cut_short = refl

other_file : run (1 ∷ 2 ∷ 3 ∷ 4 ∷ []) fast keep [] ≡ ([], throw not_a_capture)
unfolding run
other_file = refl

run-returns_example : (run (take 17 file) stepped keep []).1 ≢ undefined
run-returns_example = run-returns keep (λ r s e. cc) (take 17 file) stepped []

run-write_all_example :
    (out : ByteList) × (write_all records open_writer ≡ ok out)
    × (run out fast keep [] ≡ calls keep records 0 [])
run-write_all_example = run-write_all fast keep refl records [] (omega arith) (omega arith)

run-step_example :
    (out : ByteList) × (write_all records open_writer ≡ ok out)
    × (run out stepped keep [] ≡ calls keep records 0 [])
run-step_example = run-step keep stepped records [] refl ((λ e. cc), tt) (omega arith) (omega arith)
