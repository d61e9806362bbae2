-- ===== src/Mold/Session.antt =====
-- Session names: padded into ten bytes by `session_from_string`, trimmed by `session_string`.
use market_wire.Prelude.{
  ℕ, zero, suc, ◌+◌, ◌-◌, ◌≤◌, ◌<◌, ◌≡◌, refl, ◌∙◌, ap, Bool, false, [], ◌∷◌, ◌++◌, ◌==◌, ◌||◌, ◌⊎◌,
  inl, inr, arith, length, take, drop, replicate, min, append-nil, take-append_length,
}
use market_wire.Mold.{MoldDownstreamPacket, trimmed_length, session_string, session_from_string}
use market_wire.Wire.Bytes.{splice_fits}
use market_wire.Wire.{ByteList, at}

abbrev pub is_blank : ℕ → Bool
is_blank b = b == b' ' || b == 0

-- A name with no padding of its own.
abbrev pub IsTrimmed : ByteList → Type 0
IsTrimmed name = (name ≡ []) ⊎ (is_blank (at name (length name - 1)) ≡ false)

drop-replicate : (n m : ℕ) (b : ℕ) → drop n (replicate (n + m) b) ≡ replicate m b
drop-replicate zero m b = let e : 0 + m ≡ m = omega arith in rw e refl
drop-replicate (suc n) m b =
    let e : suc n + m ≡ suc (n + m) = omega arith in rw e (drop-replicate n m b)

session_from_string-pad :
    (name : ByteList) (k : ℕ)
    → length name + k ≡ 10
    → session_from_string name ≡ name ++ replicate k b' '
unfolding session_from_string
session_from_string-pad name k ten =
    let whole : take (min (length name) 10) name ≡ name =
      let e : min (length name) 10 ≡ length name = omega arith in
      rw e (rw append-nil at (take-append_length name [])) in
    let start : 0 + length name ≡ length name = omega arith in
    rw whole (
      splice_fits 0 name (replicate 10 b' ') (omega arith)
      ∙ rw start (ap (λ t. name ++ t) (rw ten at (drop-replicate (length name) k b' '))))

at_front : (name xs : ByteList) (j : ℕ) → j < length name → at (name ++ xs) j ≡ at name j
at_front [] xs j h = absurd (omega arith)
at_front (x ∷ name) xs zero h = refl
at_front (x ∷ name) xs (suc j) h = at_front name xs j (omega arith)

at_pad :
    (name : ByteList) (m j : ℕ) → j < m → at (name ++ replicate m b' ') (length name + j) ≡ b' '
at_pad [] zero j h = absurd (omega arith)
at_pad [] (suc m) zero h = refl
at_pad [] (suc m) (suc j) h =
    let e : 0 + suc j ≡ suc j = omega arith in
    let e' : 0 + j ≡ j = omega arith in rw e (rw e' at (at_pad [] m j (omega arith)))
at_pad (x ∷ name) m j h =
    let e : suc (length name) + j ≡ suc (length name + j) = omega arith in rw e (at_pad name m j h)

trimmed_whole :
    (n : ℕ) (name xs : ByteList)
    → n ≡ length name
    → IsTrimmed name
    → trimmed_length n (name ++ xs) ≡ n
unfolding trimmed_length
trimmed_whole zero name xs e t = refl
trimmed_whole (suc n) name xs e (inl none_left) = absurd (omega (arith, ap length none_left))
trimmed_whole (suc n) name xs e (inr t) =
    let last : length name - 1 ≡ n = omega arith in
    let here : is_blank (at (name ++ xs) n) ≡ false =
      rw (at_front name xs n (omega arith), ← last) t in
    rw here refl

trimmed_pad :
    (k n m : ℕ) (name : ByteList)
    → n ≡ length name + k
    → k ≤ m
    → IsTrimmed name
    → trimmed_length n (name ++ replicate m b' ') ≡ length name
unfolding trimmed_length
trimmed_pad zero n m name e h t =
    trimmed_whole n name (replicate m b' ') (omega arith) t ∙ omega arith
trimmed_pad (suc k) zero m name e h t = absurd (omega arith)
trimmed_pad (suc k) (suc n) m name e h t =
    let i : n ≡ length name + k = omega arith in
    let blank : at (name ++ replicate m b' ') n ≡ b' ' = rw i (at_pad name m k h) in
    rw blank (trimmed_pad k n m name i (omega arith) t)

-- A session name of at most ten bytes, with no blank or NUL at its end, is read back from the packet
-- that carries its padded form.
pub session_string-session_from_string :
    (name : ByteList) (p : MoldDownstreamPacket)
    → length name ≤ 10
    → IsTrimmed name
    → p.session ≡ session_from_string name
    → session_string p ≡ name
unfolding session_string
session_string-session_from_string name p short t e =
    let k = 10 - length name in
    let padded = e ∙ session_from_string-pad name k (omega arith) in
    let trimmed = trimmed_pad k 10 k name (omega arith) (omega arith) t in
    rw (padded, trimmed) (take-append_length name (replicate k b' '))
