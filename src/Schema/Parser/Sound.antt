-- ===== src/Schema/Parser/Sound.antt =====
-- The parser ends on every input, and what it accepts is well-formed.
use market_wire.Prelude.{
  ℕ, zero, suc, ◌-◌, ◌<◌, ◌≡◌, ◌≢◌, refl, [], ◌∷◌, ◌++◌, arith, length, get_or, inl, inr,
  Bool-cases,
}
use market_wire.Prelude.Result.{
  Result, ok, throw, undefined, duplicate_type, duplicate_message, bad_message_type,
}
use market_wire.Prelude.Text.{bytes_of}
use market_wire.Schema.{ident, string, lbrace, rbrace, semicolon, end, Token, Lexer}
use market_wire.Schema.Parser.{
  Message, Protocol, Parser, same_kind, message_named, message_typed, parse_all_fields, fuel_of,
  parse_message, parse_messages, parse_all_messages, parse_protocol, result_of, start, parse,
  not_one,
}
use market_wire.Schema.Parser.Fields.{expect_ident-Ends, parse_fields-Ends, Grows}
use market_wire.Schema.Parser.Layout.{IsLaidOut, IsWellFormed, add_message-IsWellFormed}
use market_wire.Prelude.Ends.{Ends, good, failed}
use market_wire.Schema.Parser.Progress.{
  next-Ends, measure, Leaves, after-Ends, expect-Ends, fail_if-Ends, Read,
}
use market_wire.Wire.{ByteList}

parse_all_fields-Ends :
    (m : Message) (p : Parser)
    → IsLaidOut m
    → Ends (Leaves (measure p) (Grows m)) (parse_all_fields m p)
unfolding parse_all_fields
parse_all_fields-Ends m p laid = parse_fields-Ends (fuel_of p) m p (ground arith) laid

parse_message-Ends :
    (protocol : Protocol) (p : Parser)
    → IsWellFormed protocol
    → Ends
        (Leaves (measure p - 1) (λ next. IsWellFormed next × (0 < measure p)))
        (parse_message protocol p)
unfolding parse_message
parse_message-Ends protocol p h =
    after-Ends (expect_ident-Ends (bytes_of "message") p) λ _ p1 some le1.
      after-Ends (expect-Ends ident p1 refl) λ name p2 (_, more) le2.
        after-Ends (expect-Ends string p2 refl) λ type p3 _ le3.
          after-Ends (fail_if-Ends (not_one (length type.text)) bad_message_type p3) λ _ p4 _ le4.
            after-Ends
              (fail_if-Ends (message_typed (get_or type.text 0 0) protocol.messages) duplicate_type
                p4)
              λ _ p5 typed le5.
                after-Ends
                  (fail_if-Ends (message_named name.text protocol.messages) duplicate_message p5)
                  λ _ p6 named le6. after-Ends (expect-Ends lbrace p6 refl) λ _ p7 _ le7.
                    let empty : Message = record {
                      name = name.text;
                      type = get_or type.text 0 0;
                      fields = [];
                      size = 1;
                    } in
                    after-Ends
                      (parse_all_fields-Ends empty p7
                        (record { consecutive = refl; typed = tt; names = tt }))
                      λ m p8 g le8. after-Ends (expect-Ends rbrace p8 refl) λ _ p9 _ le9.
                        good
                          {a = (record protocol { messages = protocol.messages ++ (m ∷ []) }, p9)}
                          (
                            (
                              add_message-IsWellFormed protocol m h g.0 (rw g.1 named)
                                  (rw g.2 typed),
                              omega arith,
                            ),
                            omega arith,
                          )

parse_messages-Ends :
    (fuel : ℕ) (protocol : Protocol) (p : Parser)
    → measure p < fuel
    → IsWellFormed protocol
    → Ends (λ s. IsWellFormed s.0) (parse_messages fuel protocol p)
unfolding parse_messages
parse_messages-Ends zero protocol p enough h = absurd (omega arith)
parse_messages-Ends (suc fuel) protocol p enough h =
    elim (Bool-cases (same_kind p.current.kind end)) [
      | inl over ↦ rw (over, parse_messages) (good h)
      | inr more ↦
          rw (more, parse_messages)
            (after-Ends (parse_message-Ends protocol p h)
              λ next p1 (h1, some) le. parse_messages-Ends fuel next p1 (omega arith) h1)
    ]

parse_all_messages-Ends :
    (protocol : Protocol) (p : Parser)
    → IsWellFormed protocol
    → Ends (λ s. IsWellFormed s.0) (parse_all_messages protocol p)
unfolding parse_all_messages
parse_all_messages-Ends protocol p h = parse_messages-Ends (fuel_of p) protocol p (ground arith) h

parse_protocol-Ends : (p : Parser) → Ends (λ s. IsWellFormed s.0) (parse_protocol p)
unfolding parse_protocol
parse_protocol-Ends p = after-Ends (expect_ident-Ends (bytes_of "protocol") p) λ _ p1 _ le1.
    after-Ends (expect-Ends ident p1 refl) λ name p2 _ le2.
      after-Ends (expect-Ends semicolon p2 refl) λ _ p3 _ le3.
        let empty : Protocol = record { name = name.text; messages = [] } in
        parse_all_messages-Ends empty p3 (record { messages = tt; names = tt; types = tt })

start-Ends :
    (n : ℕ) (r : Result (Token × Lexer)) → Ends (Read n) r → Ends IsWellFormed (result_of (start r))
start-Ends n (ok (t, lexer)) h = result (parse_protocol-Ends _)
  where
    result :
        {r : Result (Protocol × Parser)}
        → Ends (λ s. IsWellFormed s.0) r
        → Ends IsWellFormed (result_of r)
    result (good h) = good h
    result failed = failed
start-Ends n (throw e) h = failed
start-Ends n undefined h = elim h [ ]

pub parse-Ends : (source : ByteList) → Ends IsWellFormed (parse source)
unfolding parse
parse-Ends source = start-Ends _ _ (next-Ends (record { rest = source; line = 1 }))

module _ (source : ByteList) where
  -- The compiler's parser ends on every source text: each loop consumes a token per round, so its fuel,
  -- two more than the bytes that are left, is enough.
  pub parse-returns : parse source ≢ undefined
  parse-returns e =
      let ends = parse-Ends source in
      let none : Ends IsWellFormed undefined = rw e at ends in elim none [ ]

  -- A protocol that the parser accepts has no message name and no type byte twice; in each message no field
  -- name is there twice, the first field is at offset 1, each next one at the end of the one before it
  -- (on 64 bits) and the size is the end of the last, and each field has a type of the language with that
  -- type's width, where `ascii` takes any width but 0.
  pub parse-IsWellFormed : (p : Protocol) → parse source ≡ ok p → IsWellFormed p
  parse-IsWellFormed p e = let ends = parse-Ends source in accepted (rw e at ends)
    where
      accepted : Ends IsWellFormed (ok p) → IsWellFormed p
      accepted (good h) = h
