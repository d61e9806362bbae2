-- ===== src/Mold/Request.antt =====
-- `MoldUdp64::encode_request`: the rerequest packet on the wire.
use market_wire.Prelude.{
  ℕ, ◌+◌, ◌≡◌, refl, ◌∙◌, ap, sym, true, [], ◌++◌, ◌==◌, ◌||◌, arith, if◌then◌else◌, leb, le→leb,
  length, take, drop, replicate, append-nil, append_assoc, length-append, take-append_length,
  drop-append_length, Bool-cases, inl, inr,
}
use market_wire.Prelude.Result.{ok, throw, invalid_request_count}
use market_wire.Mold.{MoldRequest, encode_request}
use market_wire.Wire.Bytes.{to_be, length-to_be, splice, splice_fits}
use market_wire.Wire.Write.{with_field, write_u64_be_lem, write_u16_be_lem}
use market_wire.Wire.{ByteList, write_u64_be, write_u16_be}

-- A field written behind a front of its offset's length, over an old field of its width.
field_behind :
    (n v : ℕ) (front old rest : ByteList) (offset : ℕ)
    → length front ≡ offset
    → length old ≡ n
    → with_field n v (front ++ (old ++ rest)) offset ≡ front ++ (to_be n v ++ rest)
field_behind n v front old rest offset at_front width =
    let both : length (front ++ old) ≡ offset + n = omega (arith, length-append {0} front old) in
    let kept : take offset (front ++ (old ++ rest)) ≡ front =
      rw at_front at (take-append_length front (old ++ rest)) in
    let after : drop (offset + n) (front ++ (old ++ rest)) ≡ rest =
      rw (both, append_assoc) at (drop-append_length (front ++ old) rest) in
    rw (kept, after) refl

module _ (session : ByteList) (ten : length session ≡ 10) where
  blank : ByteList
  blank = session ++ (replicate 8 0 ++ (replicate 2 0 ++ []))

  copied : splice 0 (take 10 session) (replicate 20 0) ≡ blank
  unfolding blank
  copied =
      let whole : take 10 session ≡ session =
        rw (ten, append-nil) at (take-append_length session []) in
      let start : 0 + 10 ≡ 10 = refl in
      rw whole (splice_fits 0 session (replicate 20 0) (omega arith) ∙ rw ten refl)

  first_written :
      (first : ℕ)
      → write_u64_be blank 10 first ≡ ok (session ++ (to_be 8 first ++ (replicate 2 0 ++ [])))
  unfolding blank
  first_written first =
      let room : leb (10 + 8) (length blank) ≡ true =
        le→leb _ _
          (omega (arith, length-append {0} session (replicate 8 0 ++ (replicate 2 0 ++ [])))) in
      write_u64_be_lem blank 10 first
      ∙ rw room
          (ap ok (field_behind 8 first session (replicate 8 0) (replicate 2 0 ++ []) 10 ten refl))

  count_written :
      (first count : ℕ)
      → write_u16_be (session ++ (to_be 8 first ++ (replicate 2 0 ++ []))) 18 count
        ≡ ok (session ++ (to_be 8 first ++ to_be 2 count))
  count_written first count =
      let front = session ++ to_be 8 first in
      let at_front : length front ≡ 18 =
        omega (arith, length-append {0} session (to_be 8 first), length-to_be 8 first) in
      let regroup : (xs : ByteList) → session ++ (to_be 8 first ++ xs) ≡ front ++ xs =
        λ xs. sym (append_assoc session (to_be 8 first) xs) in
      let d = front ++ (replicate 2 0 ++ []) in
      let room : leb (18 + 2) (length d) ≡ true =
        le→leb _ _ (omega (arith, length-append {0} front (replicate 2 0 ++ []))) in
      ap (λ t. write_u16_be t 18 count) (regroup (replicate 2 0 ++ []))
      ∙ write_u16_be_lem d 18 count
      ∙ rw room (
          ap ok (
            field_behind 2 count front (replicate 2 0) [] 18 at_front refl
            ∙ append_assoc session (to_be 8 first) (to_be 2 count ++ [])
            ∙ rw append-nil refl))

-- A count of 0 or 0xFFFF is refused. Any other request becomes twenty bytes: the session, the first
-- sequence number in eight bytes and the count in two, both big-endian.
pub encode_request_lem :
    (r : MoldRequest)
    → length r.session ≡ 10
    → encode_request r ≡ (
        if r.message_count == 0 || r.message_count == 0xFFFF
        then throw invalid_request_count
        else ok (r.session ++ (to_be 8 r.first_sequence ++ to_be 2 r.message_count)))
unfolding encode_request
encode_request_lem r ten = elim (Bool-cases (r.message_count == 0 || r.message_count == 0xFFFF)) [
  | inl bad ↦ rw bad refl
  | inr good ↦
      rw (good, copied r.session ten)
        (rw (first_written r.session ten r.first_sequence)
          (count_written r.session ten r.first_sequence r.message_count))
]
