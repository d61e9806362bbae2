-- ===== src/Capture/RoundTrip.antt =====
-- What `CaptureWriter` writes, `CaptureReader` reads.
use market_wire.Prelude.{
  suc, ◌%◌, ◌^◌, ◌<◌, ◌≤◌, ◌≡◌, refl, ap, ◌∙◌, sym, List, [], ◌∷◌, ◌++◌, ltb, length, All, arith,
  length-append, none, append_assoc, append-nil, some, false,
}
use market_wire.Prelude.Result.{Result, ok, ◌>>=◌, truncated_payload}
use market_wire.Capture.{
  CaptureRecord, max_datagram_size, write, open_writer, open_reader, read_record, next,
}
use market_wire.Capture.Fields.{
  write_u64_lem, write_u32_lem, read_bytes-append, read_u64-to_be, read_u32-to_be,
}
use market_wire.Wire.Bytes.{to_be, length-to_be}
use market_wire.Wire.{ByteList}

-- A record with a 64-bit time stamp and a datagram within the limit.
abbrev pub IsRecord : CaptureRecord → Type 0
IsRecord r = (r.monotonic_ns < 2 ^ 64) × (length r.datagram ≤ max_datagram_size)

-- The format: time stamp, length and bytes of each datagram.
unfoldable pub layout : List CaptureRecord → ByteList
layout [] = []
layout (r ∷ rs) =
    to_be 8 r.monotonic_ns ++ (to_be 4 (length r.datagram) ++ (r.datagram ++ layout rs))

unfoldable pub write_all : List CaptureRecord → ByteList → Result ByteList
unfolding write
write_all [] out = ok out
write_all (r ∷ rs) out = write r.monotonic_ns r.datagram out >>= write_all rs

write-layout :
    (r : CaptureRecord) (out : ByteList)
    → IsRecord r
    → write r.monotonic_ns r.datagram out ≡ ok (out ++ layout (r ∷ []))
unfolding write layout
write-layout r out h =
    let small : ltb max_datagram_size (length r.datagram) ≡ false = ground (arith, h.1) in
    let size : length r.datagram % 2 ^ 32 ≡ length r.datagram = omega (arith, h.1) in
    rw (small, size, write_u64_lem, write_u32_lem)
      (ap ok (
        append_assoc (out ++ to_be 8 r.monotonic_ns) (to_be 4 (length r.datagram)) r.datagram
        ∙ append_assoc out (to_be 8 r.monotonic_ns) (to_be 4 (length r.datagram) ++ r.datagram)
        ∙ simp append-nil refl))

pub write_all-layout :
    (rs : List CaptureRecord) (out : ByteList)
    → All IsRecord rs
    → write_all rs out ≡ ok (out ++ layout rs)
unfolding write_all layout
write_all-layout [] out h = ap ok (sym (append-nil out))
write_all-layout (r ∷ rs) out h = rw (write-layout r out h.0) (
    write_all-layout rs (out ++ layout (r ∷ [])) h.1 ∙ ap ok (simp (append_assoc, append-nil) refl))

next_some : (in_ : ByteList) → 0 < length in_ → next in_ ≡ (read_record in_ >>= λ r. ok (some r))
unfolding next
next_some [] h = absurd (omega arith)
next_some (c ∷ in_) h = refl

read_record-layout :
    (r : CaptureRecord) (rs : List CaptureRecord)
    → IsRecord r
    → read_record (layout (r ∷ rs)) ≡ ok (r, layout rs)
unfolding read_record layout
read_record-layout r rs h =
    let small : ltb max_datagram_size (length r.datagram) ≡ false = ground (arith, h.1) in
    let ns =
      read_u64-to_be r.monotonic_ns (to_be 4 (length r.datagram) ++ (r.datagram ++ layout rs))
        h.0 in
    let size = read_u32-to_be (length r.datagram) (r.datagram ++ layout rs) (omega (arith, h.1)) in
    let payload =
      read_bytes-append r.datagram (layout rs) (length r.datagram) truncated_payload refl in
    rw ns (rw size (rw (small, payload) refl))

pub layout-longer :
    (r : CaptureRecord) (rs : List CaptureRecord) → length (layout rs) < length (layout (r ∷ rs))
unfolding layout
layout-longer r rs =
    let a = to_be 8 r.monotonic_ns in
    let b = to_be 4 (length r.datagram) in
    omega (
      arith,
      length-to_be 8 r.monotonic_ns,
      length-append {0} a (b ++ (r.datagram ++ layout rs)),
      length-append {0} b (r.datagram ++ layout rs),
      length-append {0} r.datagram (layout rs),
    )

pub next-layout :
    (r : CaptureRecord) (rs : List CaptureRecord)
    → IsRecord r
    → next (layout (r ∷ rs)) ≡ ok (some (r, layout rs))
next-layout r rs h =
    next_some (layout (r ∷ rs)) (omega (arith, layout-longer r rs))
    ∙ rw (read_record-layout r rs h) refl

pub next_end : next (layout []) ≡ ok none
unfolding next layout
next_end = refl

-- The records as a file that is opened.
pub open_reader-layout :
    (rs : List CaptureRecord) → open_reader (open_writer ++ layout rs) ≡ ok (layout rs)
unfolding open_reader open_writer
open_reader-layout rs =
    let room : ltb (suc (suc (suc (suc (length (layout rs)))))) 4 ≡ false = ground arith in
    rw room refl
