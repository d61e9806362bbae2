-- ===== src/Schema/Parser/Fields.antt =====
-- The methods that read one message's fields end, and lay the message out.
use market_wire.Prelude.{
  ℕ, zero, suc, ◌-◌, ◌<◌, ◌≤◌, ◌≡◌, refl, ◌∙◌, Bool, true, false, ◌||◌, ◌==◌, ltb, ◌^◌, arith, inl,
  inr, ◌⊎◌, Bool-cases, if◌then◌else◌,
}
use market_wire.Prelude.Result.{duplicate_field}
use market_wire.Schema.{ident, number, rbrace, lbracket, rbracket, colon, semicolon}
use market_wire.Schema.Parser.{
  Field, Message, Parser, Parse, same_kind, expect_ident, stoul, decimal, ascii_width, type_width,
  field_width, field_named, add_field, parse_field, parse_fields,
}
use market_wire.Schema.Parser.Layout.{
  IsTyped, ascii, u8, char, u16, u32, price4, u48, u64, price8, IsLaidOut, add_field-IsLaidOut,
}
use market_wire.Prelude.Ends.{Ends, good, failed, Ends-map}
use market_wire.Schema.Parser.Progress.{measure, Leaves, after-Ends, expect-Ends, fail_if-Ends}
use market_wire.Wire.{ByteList, bytes_equal}
use market_wire.Wire.Bytes.{eq_of_bytes_equal}

Ends-test :
    {A : Type 0} {Q : A × Parser → Type 0} (x y : Parse A) (b : Bool) (p : Parser)
    → (b ≡ true → Ends Q (x p))
    → (b ≡ false → Ends Q (y p))
    → Ends Q ((if b then x else y) p)
Ends-test x y true p h k = h refl
Ends-test x y false p h k = k refl

or_cases : (a b : Bool) → (a || b) ≡ true → (a ≡ true) ⊎ (b ≡ true)
or_cases true b h = inl refl
or_cases false b h = inr h

stoul-Ends :
    (text : ByteList) (p : Parser) → Ends (Leaves (measure p) (λ _. Unit {0})) (stoul text p)
unfolding stoul
stoul-Ends text p = elim (Bool-cases (ltb (decimal 0 text) (2 ^ 64))) [
  | inl fits ↦ rw fits (good (tt, omega arith))
  | inr big ↦ rw big failed
]

pub expect_ident-Ends :
    (text : ByteList) (p : Parser)
    → Ends (Leaves (measure p - 1) (λ _. Unit {0})) (expect_ident text p)
unfolding expect_ident
expect_ident-Ends text p = after-Ends (expect-Ends ident p refl) λ token p1 _ le.
    elim (Bool-cases (bytes_equal token.text text)) [
      | inl same ↦ rw same (good (tt, le))
      | inr other ↦ rw other failed
    ]

ascii_width-Ends : (p : Parser) → Ends (Leaves (measure p - 1) (λ w. 0 < w)) (ascii_width p)
unfolding ascii_width
ascii_width-Ends p = after-Ends (expect-Ends lbracket p refl) λ _ p1 _ le1.
    after-Ends (expect-Ends number p1 refl) λ digits p2 _ le2.
      after-Ends (stoul-Ends digits.text p2) λ width p3 _ le3.
        after-Ends (expect-Ends rbracket p3 refl) λ _ p4 _ le4.
          after-Ends (fail_if-Ends (width == 0) _ p4)
            λ _ p5 positive le5. good (ground arith, omega arith)

-- A field of the type, with that width, is one of the language.
abbrev Fits : ByteList → ℕ → Type 0
Fits type w = (f : Field) → f.type ≡ type → f.width ≡ w → IsTyped f

type_width-Ends :
    (type : ByteList) (p : Parser) → Ends (Leaves (measure p) (Fits type)) (type_width type p)
unfolding type_width
type_width-Ends type p =
    let is = λ (t : ByteList) (h : bytes_equal type t ≡ true). eq_of_bytes_equal type t h in
    let le : measure p ≤ measure p = omega arith in
    Ends-test _ _ _ p
      (λ h. elim (or_cases _ _ h) [
        | inl a ↦ good ((λ f t w. u8 (t ∙ is _ a) w), le)
        | inr b ↦ good ((λ f t w. char (t ∙ is _ b) w), le)
      ])
      λ _.
        Ends-test _ _ _ p (λ h. good ((λ f t w. u16 (t ∙ is _ h) w), le))
          λ _.
            Ends-test _ _ _ p
              (λ h. elim (or_cases _ _ h) [
                | inl a ↦ good ((λ f t w. u32 (t ∙ is _ a) w), le)
                | inr b ↦ good ((λ f t w. price4 (t ∙ is _ b) w), le)
              ])
              λ _.
                Ends-test _ _ _ p (λ h. good ((λ f t w. u48 (t ∙ is _ h) w), le))
                  λ _.
                    Ends-test _ _ _ p
                      (λ h. elim (or_cases _ _ h) [
                        | inl a ↦ good ((λ f t w. u64 (t ∙ is _ a) w), le)
                        | inr b ↦ good ((λ f t w. price8 (t ∙ is _ b) w), le)
                      ])
                      λ _. failed

field_width-Ends :
    (type : ByteList) (p : Parser) → Ends (Leaves (measure p) (Fits type)) (field_width type p)
unfolding field_width
field_width-Ends type p =
    Ends-test _ _ _ p
      (λ h. Ends-map (ascii_width-Ends p) λ s (positive, le).
        ((λ f t w. ascii (t ∙ eq_of_bytes_equal type _ h) (omega arith)), omega arith))
      λ _. type_width-Ends type p

-- The message with its fields so far.
abbrev pub Grows : Message → Message → Type 0
Grows m m' = IsLaidOut m' × (m'.name ≡ m.name) × (m'.type ≡ m.type)

parse_field-Ends :
    (m : Message) (p : Parser)
    → IsLaidOut m
    → Ends (Leaves (measure p - 1) (λ m'. Grows m m' × (0 < measure p))) (parse_field m p)
unfolding parse_field
parse_field-Ends m p laid = after-Ends (expect-Ends ident p refl) λ name p1 some le1.
    after-Ends (fail_if-Ends (field_named name.text m.fields) duplicate_field p1) λ _ p2 fresh le2.
      after-Ends (expect-Ends colon p2 refl) λ _ p3 _ le3.
        after-Ends (expect-Ends ident p3 refl) λ type p4 _ le4.
          after-Ends (field_width-Ends type.text p4) λ width p5 fits le5.
            after-Ends (expect-Ends semicolon p5 refl) λ _ p6 _ le6.
              let f : Field = record {
                name = name.text;
                type = type.text;
                width = width;
                offset = m.size;
              } in
              good {a = (add_field m f, p6)} (
                ((add_field-IsLaidOut m f laid refl (fits f refl refl) fresh, refl, refl), some.1),
                omega arith,
              )

Grows-trans : (m m1 m2 : Message) → Grows m m1 → Grows m1 m2 → Grows m m2
Grows-trans m m1 m2 g h = (h.0, h.1 ∙ g.1, h.2 ∙ g.2)

pub parse_fields-Ends :
    (fuel : ℕ) (m : Message) (p : Parser)
    → measure p < fuel
    → IsLaidOut m
    → Ends (Leaves (measure p) (Grows m)) (parse_fields fuel m p)
unfolding parse_fields
parse_fields-Ends zero m p enough laid = absurd (omega arith)
parse_fields-Ends (suc fuel) m p enough laid = elim (Bool-cases (same_kind p.current.kind rbrace)) [
  | inl over ↦ rw (over, parse_fields) (good ((laid, refl, refl), omega arith))
  | inr more ↦
      rw (more, parse_fields)
        (after-Ends (parse_field-Ends m p laid) λ m1 p1 (g, some) le.
          Ends-map (parse_fields-Ends fuel m1 p1 (omega arith) g.0)
            λ s (h, le1). (Grows-trans m m1 s.0 g h, omega arith))
]
