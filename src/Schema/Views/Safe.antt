-- ===== src/Schema/Views/Safe.antt =====
-- The accessors of a view stay inside its bytes.
use market_wire.Prelude.{
  ℕ, ◌+◌, ◌%◌, ◌^◌, ◌<◌, ◌≤◌, ◌≡◌, refl, ◌∙◌, sym, ◌⊎◌, inl, inr, List, [], ◌∷◌, All, arith, length,
  take, drop, ◌==◌, ==_iff, Bool-cases,
}
use market_wire.Prelude.Result.{Result, ok, ◌>>◌}
use market_wire.Prelude.Text.{bytes_of}
use market_wire.Mold.Parse.{require-ok}
use market_wire.Schema.Parser.{Field, Message}
use market_wire.Schema.Parser.Layout.{
  Consecutive, IsTyped, ascii, u8, char, u16, u32, price4, u48, u64, price8, IsLaidOut,
}
use market_wire.Schema.Views.{View, construct, accessor_number, accessor_text}
use market_wire.Wire.{
  ByteList, at, require_bytes, read_u8, read_u16_be, read_u32_be, read_u48_be, read_u64_be,
  read_char, read_ascii_view,
}

abbrev pub Returns : {A : Type 0} → Result A → Type 0
Returns {A} r = (a : A) × (r ≡ ok a)

-- The accessor that the field has returns a value.
abbrev pub Reads : ByteList → Field → Type 0
Reads bytes f = Returns (accessor_number f bytes) ⊎ Returns (accessor_text f bytes)

abbrev pub total_width : List Field → ℕ
total_width [] = 0
total_width (f ∷ fields) = f.width + total_width fields

module _ (bytes : ByteList) (offset : ℕ) where
  guarded :
      {A : Type 0} (w : ℕ) (a : A)
      → offset + w ≤ length bytes
      → Returns (require_bytes bytes offset w >> ok a)
  guarded w a room = (a, rw (require-ok bytes offset w room) refl)

  u8-Returns : offset + 1 ≤ length bytes → Returns (read_u8 bytes offset)
  unfolding read_u8
  u8-Returns room = guarded 1 (at bytes offset) room

  u16-Returns : offset + 2 ≤ length bytes → Returns (read_u16_be bytes offset)
  unfolding read_u16_be
  u16-Returns room = guarded 2 _ room

  u32-Returns : offset + 4 ≤ length bytes → Returns (read_u32_be bytes offset)
  unfolding read_u32_be
  u32-Returns room = guarded 4 _ room

  u48-Returns : offset + 6 ≤ length bytes → Returns (read_u48_be bytes offset)
  unfolding read_u48_be
  u48-Returns room = guarded 6 _ room

  u64-Returns : offset + 8 ≤ length bytes → Returns (read_u64_be bytes offset)
  unfolding read_u64_be
  u64-Returns room = guarded 8 _ room

Reads-IsTyped :
    (bytes : ByteList) (f : Field) → f.offset + f.width ≤ length bytes → IsTyped f → Reads bytes f
unfolding accessor_number accessor_text bytes_of
Reads-IsTyped bytes f room (u8 t w) = inl (rw t (u8-Returns bytes f.offset (rw w at room)))
Reads-IsTyped bytes f room (u16 t w) = inl (rw t (u16-Returns bytes f.offset (rw w at room)))
Reads-IsTyped bytes f room (u32 t w) = inl (rw t (u32-Returns bytes f.offset (rw w at room)))
Reads-IsTyped bytes f room (price4 t w) = inl (rw t (u32-Returns bytes f.offset (rw w at room)))
Reads-IsTyped bytes f room (u48 t w) = inl (rw t (u48-Returns bytes f.offset (rw w at room)))
Reads-IsTyped bytes f room (u64 t w) = inl (rw t (u64-Returns bytes f.offset (rw w at room)))
Reads-IsTyped bytes f room (price8 t w) = inl (rw t (u64-Returns bytes f.offset (rw w at room)))
Reads-IsTyped bytes f room (char t w) =
    inl (rw t (unfold read_char in u8-Returns bytes f.offset (rw w at room)))
Reads-IsTyped bytes f room (ascii t w) = inr (
    rw t (
      unfold read_ascii_view in
      guarded bytes f.offset f.width (take f.width (drop f.offset bytes)) room))

last_after :
    (start : ℕ) (fields : List Field) (last : ℕ)
    → start + total_width fields < 2 ^ 64
    → Consecutive start fields last
    → last ≡ start + total_width fields
last_after start [] last small c = omega (arith, c)
last_after start (f ∷ fields) last small c =
    let next : (start + f.width) % 2 ^ 64 ≡ start + f.width = omega arith in
    last_after (start + f.width) fields last (omega arith) (rw next at c.1) ∙ omega arith

Reads-Consecutive :
    (bytes : ByteList) (start : ℕ) (fields : List Field) (last : ℕ)
    → start + total_width fields < 2 ^ 64
    → length bytes ≡ last
    → Consecutive start fields last
    → All IsTyped fields
    → All (Reads bytes) fields
Reads-Consecutive bytes start [] last small size c t = tt
Reads-Consecutive bytes start (f ∷ fields) last small size c t =
    let next : (start + f.width) % 2 ^ 64 ≡ start + f.width = omega arith in
    let more = rw next at c.1 in
    let end = last_after (start + f.width) fields last (omega arith) more in
    (
      Reads-IsTyped bytes f (omega (arith, c.0, end, size)) t.0,
      Reads-Consecutive bytes (start + f.width) fields last (omega arith) size more t.1,
    )

-- A view that was constructed for a message as the compiler lays it out, whose size does not wrap at 64 bits,
-- reads every field of the message: no accessor goes past the end of the bytes.
pub construct-Reads :
    (m : Message) (bytes : ByteList) (v : View)
    → IsLaidOut m
    → 1 + total_width m.fields < 2 ^ 64
    → construct m bytes ≡ ok v
    → All (Reads v.bytes) v.message.fields
unfolding construct
construct-Reads m bytes v laid small made = elim (Bool-cases (length bytes == m.size)) [
  | inr wrong ↦ absurd (cc (rw wrong at made))
  | inl right ↦ elim (Bool-cases (at bytes 0 == m.type)) [
    | inr other ↦ absurd (cc (rw (right, other) at made))
    | inl same ↦
        let is : record { message = m; bytes = bytes } ≡ v = cc (rw (right, same) at made) in
        let reads =
          Reads-Consecutive bytes 1 m.fields m.size small ((==_iff _ _).0 right) laid.consecutive
            laid.typed in
        rw (sym is) reads
  ]
]
