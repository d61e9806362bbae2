-- ===== src/Wire/Bytes.antt =====
-- Big-endian numerals and pieces of byte lists, as the descriptions that the readers and writers
-- of Wire are compared with.
use market_wire.Prelude.{
  ℕ, ◌≡◌, true, ==_refl, zero, suc, ◌+◌, ◌*◌, ◌/◌, ◌%◌, ◌^◌, ◌<◌, ◌≡◌, refl, sym, ap, ◌∙◌, List, [],
  ◌∷◌, ◌++◌, arith, length, All, set, take, drop, length-append, append_assoc, ◌≤◌, length-take,
  length-drop, drop-nil, take-append-drop,
}
use market_wire.Wire.{bytes_equal}
use native.Mathlib.Nat.{
  pow-suc, div-add-mod, mod-lt, mod-eq_of_lt, add-mul-mod_self_left, mul-add-div_right,
  div-eq_of_lt,
}
use native.Mathlib.Numerals.{towards_suc}

abbrev pub IsByte : ℕ → Type 0
IsByte b = b < 256

-- The number that a big-endian byte string continues, and the string of a number.
unfoldable pub be_value : ℕ → List ℕ → ℕ
be_value acc [] = acc
be_value acc (b ∷ bs) = be_value (acc * 256 + b) bs

unfoldable pub to_be : ℕ → ℕ → List ℕ
to_be zero v = []
to_be (suc n) v = (v / 256 ^ n % 256) ∷ to_be n v

pub length-to_be : (n v : ℕ) → length (to_be n v) ≡ n
unfolding to_be
length-to_be zero v = refl
length-to_be (suc n) v = ap suc (length-to_be n v)

pub IsByte-to_be : (n v : ℕ) → All IsByte (to_be n v)
unfolding to_be
IsByte-to_be zero v = tt
IsByte-to_be (suc n) v = (omega arith, IsByte-to_be n v)

pub pow_pos_256 : (n : ℕ) → 0 < 256 ^ n
pow_pos_256 zero = omega arith
pow_pos_256 (suc n) = rw pow-suc (omega (arith, pow_pos_256 n))

mod_byte : (n : ℕ) → n % 256 < 256
mod_byte n = omega arith

mod_split : (p v : ℕ) → 0 < p → v / p % 256 * p + v % p ≡ v % (p * 256)
mod_split p v pos =
    let low : ℕ = v / p % 256 * p + v % p in
    let split : v ≡ low + p * 256 * (v / p / 256) =
      omega (arith, div-add-mod v p, ap (λ (t : ℕ). p * t) (div-add-mod (v / p) 256)) in
    let small : low < p * 256 = grind (arith, mod-lt v pos, mod_byte (v / p)) in
    sym (
      ap (λ n. n % (p * 256)) split
      ∙ add-mul-mod_self_left low (p * 256) (v / p / 256)
      ∙ mod-eq_of_lt small)

pub be_value-to_be : (n acc v : ℕ) → be_value acc (to_be n v) ≡ acc * 256 ^ n + v % 256 ^ n
unfolding be_value to_be
be_value-to_be zero acc v = omega arith
be_value-to_be (suc n) acc v =
    be_value-to_be n (acc * 256 + v / 256 ^ n % 256) v
    ∙ rw pow-suc (omega (arith, mod_split (256 ^ n) v (pow_pos_256 n)))

pub be_value-lt :
    (acc p : ℕ) (bs : List ℕ) → acc < p → All IsByte bs → be_value acc bs < p * 256 ^ length bs
unfolding be_value
be_value-lt acc p [] h b = omega arith
be_value-lt acc p (x ∷ bs) h b =
    let rest = be_value-lt (acc * 256 + x) (p * 256) bs (omega arith) b.1 in
    rw pow-suc (omega (arith, rest))

pub pow_eight : (i : ℕ) → 2 ^ (i * 8) ≡ 256 ^ i
pow_eight zero = refl
pow_eight (suc i) =
    let e : suc i * 8 ≡ i * 8 + 8 = omega arith in
    rw (e, pow-suc) (simp towards_suc (omega (arith, pow_eight i)))

-- A byte string written over a list, from index `i` on.
unfoldable pub splice : ℕ → List ℕ → List ℕ → List ℕ
splice i [] bs = bs
splice i (x ∷ xs) bs = splice (i + 1) xs (set bs i x)

set-append :
    (pre post : List ℕ) (y x : ℕ) → set (pre ++ (y ∷ post)) (length pre) x ≡ pre ++ (x ∷ post)
set-append [] post y x = refl
set-append (z ∷ pre) post y x = ap (λ t. z ∷ t) (set-append pre post y x)

pub splice-append :
    (xs pre old post : List ℕ)
    → length old ≡ length xs
    → splice (length pre) xs (pre ++ (old ++ post)) ≡ pre ++ (xs ++ post)
unfolding splice
splice-append [] pre [] post h = refl
splice-append [] pre (y ∷ old) post h = absurd (omega arith)
splice-append (x ∷ xs) pre [] post h = absurd (omega arith)
splice-append (x ∷ xs) pre (y ∷ old) post h = rw set-append (
    simp (append_assoc, length-append) at
      (splice-append xs (pre ++ (x ∷ [])) old post (omega arith)))

pub drop-drop : (i n : ℕ) (bs : List ℕ) → drop n (drop i bs) ≡ drop (i + n) bs
drop-drop zero n bs = let e : 0 + n ≡ n = omega arith in rw e
drop-drop (suc i) n [] = drop-nil n ∙ sym (drop-nil (suc i + n))
drop-drop (suc i) n (x ∷ bs) =
    let e : suc i + n ≡ suc (i + n) = omega arith in rw e (drop-drop i n bs)

-- A splice that fits replaces a piece of the list, and nothing else.
pub splice_fits :
    (i : ℕ) (xs bs : List ℕ)
    → i + length xs ≤ length bs
    → splice i xs bs ≡ take i bs ++ (xs ++ drop (i + length xs) bs)
splice_fits i xs bs room =
    let pre = take i bs in
    let old = take (length xs) (drop i bs) in
    let post = drop (i + length xs) bs in
    let at_pre : length pre ≡ i = omega (arith, length-take i bs) in
    let width : length old ≡ length xs =
      omega (arith, length-take (length xs) (drop i bs), length-drop i bs) in
    let tail : old ++ post ≡ drop i bs =
      rw (← drop-drop i (length xs) bs) (take-append-drop (length xs) (drop i bs)) in
    let whole : pre ++ (old ++ post) ≡ bs = ap (λ t. pre ++ t) tail ∙ take-append-drop i bs in
    rw (at_pre, whole) at (splice-append xs pre old post width)

be_value-add : (a : ℕ) (bs : List ℕ) → be_value a bs ≡ a * 256 ^ length bs + be_value 0 bs
unfolding be_value
be_value-add a [] = omega arith
be_value-add a (x ∷ bs) =
    rw pow-suc (omega (arith, be_value-add (a * 256 + x) bs, be_value-add (0 * 256 + x) bs))

div_high : (a p r : ℕ) → r < p → (a * p + r) / p ≡ a
div_high a p r h = mul-add-div_right (omega arith) a r ∙ omega (arith, div-eq_of_lt h)

-- A byte string is the numeral of its own value.
pub to_be-be_value : (a : ℕ) (bs : List ℕ) → All IsByte bs → to_be (length bs) (be_value a bs) ≡ bs
unfolding to_be be_value
to_be-be_value a [] b = refl
to_be-be_value a (x ∷ bs) b =
    let p = 256 ^ length bs in
    let rest : be_value 0 bs < p = omega (arith, be_value-lt 0 1 bs (omega arith) b.1) in
    let high : be_value (a * 256 + x) bs / p ≡ a * 256 + x =
      ap (λ n. n / p) (be_value-add (a * 256 + x) bs) ∙ div_high (a * 256 + x) p _ rest in
    let low : (a * 256 + x) % 256 ≡ x = omega (arith, b.0) in
    rw (high, low) (ap (λ t. x ∷ t) (to_be-be_value (a * 256 + x) bs b.1))

pub bytes_equal_refl : (s : List ℕ) → bytes_equal s s ≡ true
unfolding bytes_equal
bytes_equal_refl [] = refl
bytes_equal_refl (b ∷ s) = rw (==_refl b) (bytes_equal_refl s)

pub eq_of_bytes_equal : (s t : List ℕ) → bytes_equal s t ≡ true → s ≡ t
unfolding bytes_equal
eq_of_bytes_equal [] [] h = refl
eq_of_bytes_equal [] (b ∷ t) h = cc
eq_of_bytes_equal (a ∷ s) [] h = cc
eq_of_bytes_equal (a ∷ s) (b ∷ t) h = ground (arith, eq_of_bytes_equal s t)
