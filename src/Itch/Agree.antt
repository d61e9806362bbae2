-- ===== src/Itch/Agree.antt =====
-- The decoder over the generated views agrees with the reference decoder.
use market_wire.Prelude.{
  ℕ, suc, ◌≡◌, refl, sym, ◌∙◌, Option-cases, true, false, Bool, ◌||◌, Option, none, some, [], ◌∷◌,
  length, inl, inr, Bool-cases, ◌==◌, ==_iff,
}
use market_wire.Prelude.Result.{
  Result, ok, throw, empty_itch, length_mismatch, unsupported_type, invalid_size_type,
}
use market_wire.Events.{MarketEvent}
use market_wire.Itch.{decode_type, decode_book_event}
use market_wire.Itch.Reference.{reference_type, reference_decode}
use market_wire.Itch.Cases.{
  add_size, add_mpid_size, execute_size, execute_price_size, cancel_size, delete_size, replace_size,
  add_agrees, add_wrong, add_mpid_agrees, add_mpid_wrong, execute_agrees, execute_wrong,
  execute_price_agrees, execute_price_wrong, cancel_agrees, cancel_wrong, delete_agrees,
  delete_wrong, replace_agrees, replace_wrong,
}
use market_wire.Schema.Itch50.{itch50}
use market_wire.Schema.Views.{message_size}
use market_wire.Wire.{ByteList}

abbrev pub Decoded : Type 0
Decoded = Result (Option MarketEvent)

-- The types of the messages that change the book.
abbrev pub is_book : ℕ → Bool
is_book t = t == b'A' || t == b'F' || t == b'E' || t == b'C' || t == b'X' || t == b'D' || t == b'U'

-- The two outcomes for a message whose size is right, or wrong, for its type.
abbrev pub Sized : Bool → Bool → Decoded → Decoded → Type 0
Sized true book d r = d ≡ r
Sized false true d r = (d ≡ throw length_mismatch) × (r ≡ throw invalid_size_type)
Sized false false d r = (d ≡ throw length_mismatch) × (r ≡ ok none)

-- The two outcomes for a message, by the size that the schema has for its type.
abbrev pub Verdict : Option ℕ → Bool → ℕ → Decoded → Decoded → Type 0
Verdict none book size d r = (d ≡ throw unsupported_type) × (r ≡ ok none)
Verdict (some expected) book size d r = Sized (size == expected) book d r

abbrev pub Agreement : ByteList → Decoded → Decoded → Type 0
Agreement [] d r = (d ≡ throw empty_itch) × (r ≡ throw empty_itch)
Agreement (t ∷ rest) d r = Verdict (message_size itch50 t) (is_book t) (length (t ∷ rest)) d r

module _ (rest : ByteList) where
  sized-Agreement :
      (t size : ℕ)
      → message_size itch50 t ≡ some size
      → is_book t ≡ true
      → (suc (length rest) ≡ size → decode_type itch50 t (t ∷ rest) ≡ reference_type t (t ∷ rest))
      → ((suc (length rest) == size) ≡ false
          → reference_type t (t ∷ rest) ≡ throw invalid_size_type)
      → Agreement (t ∷ rest) (decode_book_event itch50 (t ∷ rest)) (reference_decode (t ∷ rest))
  unfolding decode_book_event reference_decode
  sized-Agreement t size known book good bad = elim (Bool-cases (suc (length rest) == size)) [
    | inl right ↦ rw (known, right) (good ((==_iff _ _).0 right))
    | inr wrong ↦ rw (known, book, wrong) (refl, bad wrong)
  ]

  other-Agreement :
      (t : ℕ)
      → is_book t ≡ false
      → decode_type itch50 t (t ∷ rest) ≡ ok none
      → reference_type t (t ∷ rest) ≡ ok none
      → Agreement (t ∷ rest) (decode_book_event itch50 (t ∷ rest)) (reference_decode (t ∷ rest))
  unfolding decode_book_event reference_decode
  other-Agreement t other d r = elim (Option-cases (message_size itch50 t)) [
    | inl unknown ↦ rw unknown (refl, r)
    | inr (size, known) ↦ elim (Bool-cases (suc (length rest) == size)) [
      | inl right ↦ rw (known, right) (d ∙ sym r)
      | inr wrong ↦ rw (known, other, wrong) (refl, r)
    ]
  ]

  any-Agreement :
      (t : ℕ)
      → Agreement (t ∷ rest) (decode_book_event itch50 (t ∷ rest)) (reference_decode (t ∷ rest))
  unfolding decode_type reference_type
  any-Agreement t = elim (Bool-cases (t == b'A')) [
    | inl same ↦
        rw ((==_iff t b'A').0 same)
          (sized-Agreement b'A' 36 add_size refl (add_agrees rest) (add_wrong rest))
    | inr not_add ↦ elim (Bool-cases (t == b'F')) [
      | inl same ↦
          rw ((==_iff t b'F').0 same) (
            sized-Agreement b'F' 40 add_mpid_size refl (add_mpid_agrees rest) (add_mpid_wrong rest))
      | inr not_add_mpid ↦ elim (Bool-cases (t == b'E')) [
        | inl same ↦
            rw ((==_iff t b'E').0 same)
              (sized-Agreement b'E' 31 execute_size refl (execute_agrees rest) (execute_wrong rest))
        | inr not_execute ↦ elim (Bool-cases (t == b'C')) [
          | inl same ↦ rw ((==_iff t b'C').0 same) (
              sized-Agreement b'C' 36 execute_price_size refl (execute_price_agrees rest)
                (execute_price_wrong rest))
          | inr not_execute_price ↦ elim (Bool-cases (t == b'X')) [
            | inl same ↦
                rw ((==_iff t b'X').0 same) (
                  sized-Agreement b'X' 23 cancel_size refl (cancel_agrees rest) (cancel_wrong rest))
            | inr not_cancel ↦ elim (Bool-cases (t == b'D')) [
              | inl same ↦ rw ((==_iff t b'D').0 same) (
                  sized-Agreement b'D' 19 delete_size refl (delete_agrees rest) (delete_wrong rest))
              | inr not_delete ↦ elim (Bool-cases (t == b'U')) [
                | inl same ↦ rw ((==_iff t b'U').0 same) (
                    sized-Agreement b'U' 35 replace_size refl (replace_agrees rest)
                      (replace_wrong rest))
                | inr not_replace ↦
                    other-Agreement t
                      (rw
                        (
                          not_add, not_add_mpid, not_execute, not_execute_price, not_cancel,
                          not_delete, not_replace,
                        )
                        refl)
                      (rw
                        (
                          not_add, not_add_mpid, not_execute, not_execute_price, not_cancel,
                          not_delete, not_replace,
                        )
                        refl)
                      (rw
                        (
                          not_add, not_add_mpid, not_execute, not_execute_price, not_cancel,
                          not_delete, not_replace,
                        )
                        refl)
              ]
            ]
          ]
        ]
      ]
    ]
  ]

-- On every message the decoder over the generated views and the reference decoder do the same, but for
-- three differences: for a type that the schema does not have, only the decoder throws; for a type that the
-- schema has but that leaves the book alone, only the decoder looks at the size; and a wrong size of
-- any other is named differently. In particular, both read every event alike.
pub decode_agrees :
    (bytes : ByteList) → Agreement bytes (decode_book_event itch50 bytes) (reference_decode bytes)
unfolding decode_book_event reference_decode
decode_agrees [] = (refl, refl)
decode_agrees (t ∷ rest) = any-Agreement rest t
