-- ===== src/Mold/Sound.antt =====
-- What `MoldUdp64::parse_downstream` accepts is a packet of Framing, whole: no byte of the datagram is
-- skipped, read twice, or read past its end.
use market_wire.Prelude.{
  ℕ, zero, suc, ◌+◌, ◌%◌, ◌^◌, ◌<◌, ◌≤◌, ◌≡◌, refl, sym, ap, ◌∙◌, List, [], ◌∷◌, ◌++◌, arith, leb,
  leb→le, length, take, drop, length-take, length-drop, append_assoc, All, All-take, All-drop,
  take-append-drop, Bool-cases, inl, inr,
}
use market_wire.Prelude.Result.{ok, >>=-eq-ok}
use market_wire.Mold.Framing.{frames, number, payloads_of}
use market_wire.Mold.{MoldMessage, message_at, read_messages}
use market_wire.Wire.Bytes.{IsByte, be_value, to_be, to_be-be_value, drop-drop}
use market_wire.Wire.Read.{require_bytes_lem, be_field, read_u16_be_lem}
use market_wire.Wire.{ByteList, require_bytes, read_u16_be}

pub require-inv :
    (d : ByteList) (offset width : ℕ)
    → require_bytes d offset width ≡ ok tt
    → offset + width ≤ length d
require-inv d offset width e =
    let h = sym (require_bytes_lem d offset width) ∙ e in
    elim (Bool-cases (leb (offset + width) (length d))) [
      | inl t ↦ leb→le _ _ t
      | inr f ↦ absurd (cc (rw f at h))
    ]

-- A field that was read stands in the datagram.
pub be_field-inv :
    (n : ℕ) (d : ByteList) (offset : ℕ) {v : ℕ}
    → All IsByte d
    → be_field n d offset ≡ ok v
    → (offset + n ≤ length d) × (drop offset d ≡ to_be n v ++ drop (offset + n) d)
unfolding be_field
be_field-inv n d offset {v = v} b e = elim (Bool-cases (leb (offset + n) (length d))) [
  | inr f ↦ absurd (cc (rw f at e))
  | inl t ↦
      let piece = take n (drop offset d) in
      let room = leb→le _ _ t in
      let width : length piece ≡ n =
        omega (arith, length-take n (drop offset d), length-drop offset d) in
      let value : be_value 0 piece ≡ v = cc (rw t at e) in
      let digits : to_be n v ≡ piece =
        rw (width, value) at
          (to_be-be_value 0 piece (All-take IsByte n _ (All-drop IsByte offset d b))) in
      (
        room,
        sym (take-append-drop n (drop offset d))
            ∙ ap (λ t. t ++ drop n (drop offset d)) (sym digits)
            ∙ ap (λ t. to_be n v ++ t) (drop-drop offset n d),
      )
]

-- What the loop over the messages has read between two offsets.
pub record Scanned (d : ByteList) (first i offset n : ℕ) (r : List MoldMessage × ℕ) : Type 0 where
  pub count : length r.0 ≡ n
  pub inside : r.1 ≤ length d
  pub bytes : drop offset d ≡ frames (payloads_of r.0) ++ drop r.1 d
  pub numbered : r.0 ≡ number (first + i) (payloads_of r.0)

module _ (d : ByteList) (b : All IsByte d) (first : ℕ) where
  -- One round that succeeded read a length that fits, and went on behind the payload.
  read_messages-inv :
      (n i offset : ℕ) {r : List MoldMessage × ℕ}
      → read_messages (suc n) d first i offset ≡ ok r
      → (len : ℕ) × (rest : List MoldMessage × ℕ) × (drop offset d
          ≡ to_be 2 len ++ drop (offset + 2) d)
        × (offset + 2 + len ≤ length d)
        × (read_messages n d first (i + 1) (offset + 2 + len) ≡ ok rest)
        × (r ≡ (message_at first i (take len (drop (offset + 2) d)) ∷ rest.0, rest.1))
  unfolding read_messages
  read_messages-inv n i offset e =
      let (u, e1, k1) = >>=-eq-ok (require_bytes d offset 2) _ e in
      let (len, e2, k2) = >>=-eq-ok (read_u16_be d offset) _ k1 in
      let (u', e3, k3) = >>=-eq-ok (require_bytes d (offset + 2) len) _ k2 in
      let (rest, e4, k4) = >>=-eq-ok (read_messages n d first (i + 1) (offset + 2 + len)) _ k3 in
      (
        len,
        rest,
        (be_field-inv 2 d offset b (sym (read_u16_be_lem d offset b) ∙ e2)).1,
        require-inv d (offset + 2) len e3,
        e4,
        cc k4,
      )

  Scanned-cons :
      (n i offset len : ℕ) {rest : List MoldMessage × ℕ}
      → first + i < 2 ^ 64
      → drop offset d ≡ to_be 2 len ++ drop (offset + 2) d
      → offset + 2 + len ≤ length d
      → Scanned d first (i + 1) (offset + 2 + len) n rest
      → Scanned d first i offset
          (suc n)
          (message_at first i (take len (drop (offset + 2) d)) ∷ rest.0, rest.1)
  unfolding message_at frames number
  Scanned-cons n i offset len {rest = rest} small header room s =
      let payload = take len (drop (offset + 2) d) in
      let after = frames (payloads_of rest.0) in
      let width : length payload ≡ len =
        omega (arith, length-take len (drop (offset + 2) d), length-drop (offset + 2) d) in
      let body : drop (offset + 2) d ≡ payload ++ (after ++ drop rest.1 d) =
        sym (take-append-drop len (drop (offset + 2) d))
        ∙ ap (λ t. payload ++ t) (drop-drop (offset + 2) len d ∙ s.bytes) in
      let seq : (first + i) % 2 ^ 64 ≡ first + i = omega arith in
      let next : first + (i + 1) ≡ suc (first + i) = omega arith in
      record {
        count = ap suc s.count;
        inside = s.inside;
        bytes =
            header ∙ ap (λ t. to_be 2 len ++ t) body ∙ rw (width, append_assoc, append_assoc) refl;
        numbered =
            rw (seq, ← next)
              (ap (λ t. record { sequence = first + i; payload = payload } ∷ t) s.numbered);
      }

  pub read_messages-Scanned :
      (n i offset : ℕ) {r : List MoldMessage × ℕ}
      → offset ≤ length d
      → first + i + n ≤ 2 ^ 64
      → read_messages n d first i offset ≡ ok r
      → Scanned d first i offset n r
  read_messages-Scanned zero i offset {r = r} room fits e =
      let done : ([], offset) ≡ r = unfold read_messages in cc e in
      rw (← done) (
        unfold frames number in
        record { count = refl; inside = room; bytes = refl; numbered = refl })
  read_messages-Scanned (suc n) i offset {r = r} room fits e =
      let (len, rest, header, inside, more, result) = read_messages-inv n i offset e in
      rw result (
        Scanned-cons n i offset len (omega arith) header inside
          (read_messages-Scanned n (i + 1) (offset + 2 + len) inside (omega arith) more))
