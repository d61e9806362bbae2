-- ===== src/Cli/Recorded.antt =====
-- `replay` of a capture that was written comes to processing its datagrams.
use market_wire.Prelude.{ℕ, ◌≡◌, refl, ◌∙◌, ◌+◌, List, [], ◌∷◌, All, map, true, none, ap}
use market_wire.Prelude.Result.{Result, ok, throw, undefined}
use market_wire.Book.{OrderBook}
use market_wire.Capture.{CaptureRecord, open_writer}
use market_wire.Capture.RoundTrip.{IsRecord, write_all}
use market_wire.Cli.Process.{Feed, Processed, process_packet, and_process, process_all, replay}
use market_wire.Recovery.{new_engine}
use market_wire.Replay.{ReplayOptions, called}
use market_wire.Replay.Written.{calls, is_free, Rises, run-write_all}
use market_wire.Wire.{ByteList}

-- A replay without its count.
abbrev pub counted : Feed × Result ℕ → Processed
counted (feed, ok count) = (feed, ok tt)
counted (feed, throw e) = (feed, throw e)
counted (feed, undefined) = (feed, undefined)

counted-called :
    (p : Processed) (k : Feed → Feed × Result ℕ) (l : Feed → Processed)
    → ((feed : Feed) → counted (k feed) ≡ l feed)
    → counted (called p k) ≡ and_process p l
counted-called (feed, ok tt) k l h = h feed
counted-called (feed, throw e) k l h = refl
counted-called (feed, undefined) k l h = refl

calls-process_all :
    (rs : List CaptureRecord) (count : ℕ) (feed : Feed)
    → counted (calls (λ r f. process_packet r.datagram f) rs count feed)
      ≡ process_all (map (λ r. r.datagram) rs) feed
unfolding calls process_all
calls-process_all [] count feed = refl
calls-process_all (r ∷ rs) count feed =
    counted-called (process_packet r.datagram feed)
      (λ f. calls (λ r1 f1. process_packet r1.datagram f1) rs (count + 1) f)
      (process_all (map (λ r1. r1.datagram) rs)) (calls-process_all rs (count + 1))

-- Records with 64-bit time stamps that do not fall, and with datagrams within the limit, are written to a
-- capture without an exception, and `replay` of it, at full speed or in real time, leaves the feed, and
-- ends, as processing the datagrams one after another does.
pub replay-write_all :
    (rs : List CaptureRecord) (b : OrderBook) (o : ReplayOptions)
    → is_free o.mode ≡ true
    → All IsRecord rs
    → Rises none rs
    → (file : ByteList) × (write_all rs open_writer ≡ ok file)
      × (counted (replay b file o)
          ≡ process_all (map (λ r. r.datagram) rs) (record { recovery = new_engine 1; book = b }))
unfolding replay
replay-write_all rs b o free h rise =
    let start : Feed = record { recovery = new_engine 1; book = b } in
    let (file, written, ran) =
      run-write_all o (λ r f. process_packet r.datagram f) free rs start h rise in
    (file, written, ap counted ran ∙ calls-process_all rs 0 start)
