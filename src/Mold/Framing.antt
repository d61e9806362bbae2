-- ===== src/Mold/Framing.antt =====
-- The MoldUDP64 wire format, as a description that src/moldudp64.cpp is compared with: a session, a
-- sequence number, a count, and for each message its length and its bytes.
use market_wire.Prelude.{
  ℕ, suc, ◌+◌, ◌^◌, ◌<◌, ◌≤◌, ◌≡◌, refl, sym, ap, ◌∙◌, List, [], ◌∷◌, ◌++◌, map, arith, true, leb,
  le→leb, length, take, drop, append_assoc, length-append, length-drop, take-append_length,
  drop-append_length,
}
use market_wire.Prelude.Result.{ok}
use market_wire.Mold.{MoldMessage}
use market_wire.Wire.Bytes.{to_be, length-to_be, be_value, be_value-to_be, drop-drop}
use market_wire.Wire.Read.{be_field}
use market_wire.Wire.{ByteList}
use native.Mathlib.Nat.{mod-eq_of_lt}

unfoldable pub frames : List ByteList → ByteList
frames [] = []
frames (m ∷ ms) = to_be 2 (length m) ++ (m ++ frames ms)

unfoldable pub encode_packet : ByteList → ℕ → List ByteList → ByteList
encode_packet session first payloads =
    session ++ (to_be 8 first ++ (to_be 2 (length payloads) ++ frames payloads))

-- The messages of a packet, numbered from `first` on.
unfoldable pub number : ℕ → List ByteList → List MoldMessage
number first [] = []
number first (m ∷ ms) = record { sequence = first; payload = m } ∷ number (suc first) ms

abbrev pub payloads_of : List MoldMessage → List ByteList
payloads_of ms = map (λ m. m.payload) ms

-- `d` holds the bytes `xs` at `offset`, and `rest` after them.
pub record Holds (d : ByteList) (offset : ℕ) (xs rest : ByteList) : Type 0 where
  pub there : drop offset d ≡ xs ++ rest
  pub inside : offset + length xs ≤ length d

pub Holds-next :
    {d : ByteList} {offset : ℕ} {xs rest : ByteList} (ys zs : ByteList)
    → Holds d offset xs rest
    → rest ≡ ys ++ zs
    → Holds d (offset + length xs) ys zs
Holds-next {d} {offset} {xs} {rest} ys zs h e =
    let there : drop (offset + length xs) d ≡ ys ++ zs =
      sym (drop-drop offset (length xs) d)
      ∙ ap (drop (length xs)) h.there
      ∙ drop-append_length xs rest
      ∙ e in
    record {
      there = there;
      inside = omega (
        arith,
        h.inside,
        ap length h.there,
        ap length e,
        length-append {0} xs rest,
        length-append {0} ys zs,
        length-drop offset d,
      );
    }

pub be_field-Holds :
    (n v : ℕ) {d : ByteList} {offset : ℕ} {rest : ByteList}
    → v < 256 ^ n
    → Holds d offset (to_be n v) rest
    → be_field n d offset ≡ ok v
unfolding be_field
be_field-Holds n v {d} {offset} {rest} small h =
    let width = length-to_be n v in
    let room : leb (offset + n) (length d) ≡ true = le→leb _ _ (rw width at h.inside) in
    let picked : take n (to_be n v ++ rest) ≡ to_be n v =
      rw width at (take-append_length (to_be n v) rest) in
    let value : be_value 0 (to_be n v) ≡ v =
      be_value-to_be n 0 v ∙ omega (arith, mod-eq_of_lt small) in
    rw (room, h.there, picked, value)

pub take-Holds :
    {d : ByteList} {offset : ℕ} {xs rest : ByteList}
    → Holds d offset xs rest
    → take (length xs) (drop offset d) ≡ xs
take-Holds {xs} {rest} h = rw h.there (take-append_length xs rest)

pub Holds-front :
    {d : ByteList} {offset : ℕ} (xs ys : ByteList) {rest : ByteList}
    → Holds d offset (xs ++ ys) rest
    → Holds d offset xs (ys ++ rest)
Holds-front xs ys {rest} h = record {
  there = h.there ∙ append_assoc xs ys rest;
  inside = omega (arith, h.inside, length-append {0} xs ys);
}

-- What stands behind the front piece.
pub Holds-back :
    {d : ByteList} {offset : ℕ} (xs ys : ByteList) {rest : ByteList}
    → Holds d offset (xs ++ ys) rest
    → Holds d (offset + length xs) ys rest
Holds-back xs ys {rest} h = Holds-next ys rest (Holds-front xs ys h) refl
