-- ===== src/Schema/Parser/Progress.antt =====
-- The lexer and the parser consume their input, so the loops end.
use market_wire.Prelude.{
  ℕ, suc, ◌+◌, ◌-◌, ◌<◌, ◌≤◌, ◌≡◌, refl, Bool, true, false, ◌||◌, [], ◌∷◌, ◌==◌, arith, length, inl,
  inr, Bool-cases, if◌then◌else◌,
}
use market_wire.Prelude.Result.{Result, ok, throw, undefined, Failure}
use market_wire.Prelude.Ends.{Ends, good, failed, Ends-if, Ends-map, Ends-bind}
use market_wire.Schema.{
  Kind, ident, number, Token, Lexer, skip, skip_slash, skip_comment, span, string_body, span_token,
  token_at, token_in, next, newline, is_digit, is_word, is_alpha,
}
use market_wire.Schema.Parser.{
  Parser, Parse, kind_number, same_kind, advance, after, expect, fail_if,
}
use market_wire.Wire.{ByteList}

mutual
  unfolding skip

  length-skip : (s : ByteList) (line : ℕ) → length (skip s line).rest ≤ length s
  length-skip [] line = omega arith
  length-skip (c ∷ rest) line =
      ground
        (arith, length-skip rest (line + 1), length-skip rest line, length-skip_slash c rest line)

  length-skip_slash :
      (c : ℕ) (s : ByteList) (line : ℕ) → length (skip_slash c s line).rest ≤ suc (length s)
  length-skip_slash c [] line = omega arith
  length-skip_slash c (d ∷ rest) line = ground (arith, length-skip_comment rest line)

  length-skip_comment : (s : ByteList) (line : ℕ) → length (skip_comment s line).rest ≤ length s
  length-skip_comment [] line = omega arith
  length-skip_comment (c ∷ rest) line =
      ground (arith, length-skip rest (line + 1), length-skip_comment rest line)

length-span : (test : ℕ → Bool) (s : ByteList) → length (span test s).1 ≤ length s
unfolding span
length-span test [] = omega arith
length-span test (c ∷ rest) = elim (Bool-cases (test c)) [
  | inl taken ↦ rw taken (omega (arith, length-span test rest))
  | inr over ↦ rw over (omega arith)
]

abbrev Shorter : ℕ → ByteList × ByteList → Type 0
Shorter bound s = length s.1 ≤ bound

string_body-Ends : (s : ByteList) → Ends (Shorter (length s)) (string_body s)
unfolding string_body
string_body-Ends [] = failed
string_body-Ends (c ∷ rest) = elim (Bool-cases (c == b'"')) [
  | inl closed ↦ rw (closed, string_body) (good (omega arith))
  | inr more ↦ elim (Bool-cases (c == newline)) [
    | inl ended ↦ rw (more, ended, string_body) failed
    | inr on ↦
        rw (more, on, string_body)
          (Ends-bind (string_body-Ends rest) (λ s shorter. good (omega arith)))
  ]
]

-- What is left of the input, and the token at hand.
abbrev pub weight : Kind → ℕ
weight k = if kind_number k == 9 then 0 else 1

abbrev pub Read : ℕ → Token × Lexer → Type 0
Read bound t = length t.1.rest + weight t.0.kind ≤ bound

token_at-Ends :
    (c : ℕ) (rest : ByteList) (line : ℕ) → Ends (Read (suc (length rest))) (token_at c rest line)
unfolding token_at
token_at-Ends c rest line =
    let one : (kind : Kind) → weight kind ≤ 1 = λ kind. ground arith in
    let run : (kind : Kind) (test : ℕ → Bool)
        → Ends (Read (suc (length rest))) (ok (span_token kind test c rest line)) =
      λ kind test. good (omega (arith, length-span test rest, one kind)) in
    Ends-if (c == b'{') (good (omega arith)) (
      Ends-if (c == b'}') (good (omega arith)) (
        Ends-if (c == b'[') (good (omega arith)) (
          Ends-if (c == b']') (good (omega arith)) (
            Ends-if (c == b':') (good (omega arith)) (
              Ends-if (c == b';') (good (omega arith)) (
                Ends-if (c == b'"')
                  (Ends-bind (string_body-Ends rest) (λ s shorter. good (omega arith)))
                  (Ends-if (is_digit c) (run number is_digit)
                    (Ends-if (is_alpha c || c == b'_') (run ident is_word) failed))))))))

token_in-Ends : (s : ByteList) (line : ℕ) → Ends (Read (length s)) (token_in s line)
unfolding token_in
token_in-Ends [] line = good (omega arith)
token_in-Ends (c ∷ rest) line = token_at-Ends c rest line

pub next-Ends : (lexer : Lexer) → Ends (Read (length lexer.rest)) (next lexer)
unfolding next
next-Ends lexer =
    let at = skip lexer.rest lexer.line in
    Ends-map (token_in-Ends at.rest at.line)
      (λ t h. omega (arith, length-skip lexer.rest lexer.line))

-- What is left to read, the token at hand included.
abbrev pub measure : Parser → ℕ
measure p = length p.lexer.rest + weight p.current.kind

-- A method returns a value as described, and leaves no more than the bound.
abbrev pub Leaves : {A : Type 0} → ℕ → (A → Type 0) → A × Parser → Type 0
Leaves bound Q s = Q s.0 × (measure s.1 ≤ bound)

module _ {A B : Type 0} {bound : ℕ} {Q : A → Type 0} {R : B × Parser → Type 0} where
  pub after-Ends :
      {r : Result (A × Parser)} {rest : A → Parse B}
      → Ends (Leaves bound Q) r
      → ((a : A) (p : Parser) → Q a → measure p ≤ bound → Ends R (rest a p))
      → Ends R (after r rest)
  after-Ends (good q) k = k _ _ q.0 q.1
  after-Ends failed k = failed

advance-Ends :
    (n : ℕ) (out : Token) (Q : Token → Type 0) (r : Result (Token × Lexer))
    → Q out
    → Ends (Read n) r
    → Ends (Leaves n Q) (advance out r)
advance-Ends n out Q (ok t) q (good h) = good (q, h)
advance-Ends n out Q (throw e) q failed = failed
advance-Ends n out Q undefined q h = elim h [ ]

-- Each token that is expected is consumed.
pub expect-Ends :
    (kind : Kind) (p : Parser)
    → weight kind ≡ 1
    → Ends
        (Leaves (measure p - 1) (λ t. (same_kind t.kind kind ≡ true) × (0 < measure p)))
        (expect kind p)
unfolding expect
expect-Ends kind p one = elim (Bool-cases (same_kind p.current.kind kind)) [
  | inl same ↦
      let heavy : measure p - 1 ≡ length p.lexer.rest = ground arith in
      let some : 0 < measure p = ground arith in
      rw (same, heavy)
        (advance-Ends (length p.lexer.rest) p.current _ _ (same, some) (next-Ends p.lexer))
  | inr other ↦ rw other failed
]

-- A method that reads nothing.
pub fail_if-Ends :
    (test : Bool) (e : Failure) (p : Parser)
    → Ends (Leaves (measure p) (λ _. test ≡ false)) (fail_if test e p)
fail_if-Ends true e p = failed
fail_if-Ends false e p = good (refl, omega arith)
