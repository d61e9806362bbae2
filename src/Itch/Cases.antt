-- ===== src/Itch/Cases.antt =====
-- The messages that change the book: their sizes in the schema, and both decoders at that size and at
-- another.
use market_wire.Prelude.{◌≡◌, refl, suc, ◌==◌, false, ◌∷◌, length, some}
use market_wire.Prelude.Result.{throw, invalid_size_type}
use market_wire.Itch.{decode_type}
use market_wire.Itch.Reference.{reference_type}
use market_wire.Schema.Itch50.{itch50}
use market_wire.Schema.Views.{message_size}
use market_wire.Wire.{ByteList}

pub add_size : message_size itch50 b'A' ≡ some 36
unfolding message_size itch50
add_size = refl

pub add_mpid_size : message_size itch50 b'F' ≡ some 40
unfolding message_size itch50
add_mpid_size = refl

pub execute_size : message_size itch50 b'E' ≡ some 31
unfolding message_size itch50
execute_size = refl

pub execute_price_size : message_size itch50 b'C' ≡ some 36
unfolding message_size itch50
execute_price_size = refl

pub cancel_size : message_size itch50 b'X' ≡ some 23
unfolding message_size itch50
cancel_size = refl

pub delete_size : message_size itch50 b'D' ≡ some 19
unfolding message_size itch50
delete_size = refl

pub replace_size : message_size itch50 b'U' ≡ some 35
unfolding message_size itch50
replace_size = refl

-- Each type of the switch, at its size and at another.
module _ (rest : ByteList) where
  pub add_agrees :
      suc (length rest) ≡ 36
      → decode_type itch50 b'A' (b'A' ∷ rest) ≡ reference_type b'A' (b'A' ∷ rest)
  unfolding decode_type reference_type itch50
  add_agrees size = rw size refl

  pub add_wrong :
      (suc (length rest) == 36) ≡ false
      → reference_type b'A' (b'A' ∷ rest) ≡ throw invalid_size_type
  unfolding reference_type
  add_wrong size = rw size refl

  pub add_mpid_agrees :
      suc (length rest) ≡ 40
      → decode_type itch50 b'F' (b'F' ∷ rest) ≡ reference_type b'F' (b'F' ∷ rest)
  unfolding decode_type reference_type itch50
  add_mpid_agrees size = rw size refl

  pub add_mpid_wrong :
      (suc (length rest) == 40) ≡ false
      → reference_type b'F' (b'F' ∷ rest) ≡ throw invalid_size_type
  unfolding reference_type
  add_mpid_wrong size = rw size refl

  pub execute_agrees :
      suc (length rest) ≡ 31
      → decode_type itch50 b'E' (b'E' ∷ rest) ≡ reference_type b'E' (b'E' ∷ rest)
  unfolding decode_type reference_type itch50
  execute_agrees size = rw size refl

  pub execute_wrong :
      (suc (length rest) == 31) ≡ false
      → reference_type b'E' (b'E' ∷ rest) ≡ throw invalid_size_type
  unfolding reference_type
  execute_wrong size = rw size refl

  pub execute_price_agrees :
      suc (length rest) ≡ 36
      → decode_type itch50 b'C' (b'C' ∷ rest) ≡ reference_type b'C' (b'C' ∷ rest)
  unfolding decode_type reference_type itch50
  execute_price_agrees size = rw size refl

  pub execute_price_wrong :
      (suc (length rest) == 36) ≡ false
      → reference_type b'C' (b'C' ∷ rest) ≡ throw invalid_size_type
  unfolding reference_type
  execute_price_wrong size = rw size refl

  pub cancel_agrees :
      suc (length rest) ≡ 23
      → decode_type itch50 b'X' (b'X' ∷ rest) ≡ reference_type b'X' (b'X' ∷ rest)
  unfolding decode_type reference_type itch50
  cancel_agrees size = rw size refl

  pub cancel_wrong :
      (suc (length rest) == 23) ≡ false
      → reference_type b'X' (b'X' ∷ rest) ≡ throw invalid_size_type
  unfolding reference_type
  cancel_wrong size = rw size refl

  pub delete_agrees :
      suc (length rest) ≡ 19
      → decode_type itch50 b'D' (b'D' ∷ rest) ≡ reference_type b'D' (b'D' ∷ rest)
  unfolding decode_type reference_type itch50
  delete_agrees size = rw size refl

  pub delete_wrong :
      (suc (length rest) == 19) ≡ false
      → reference_type b'D' (b'D' ∷ rest) ≡ throw invalid_size_type
  unfolding reference_type
  delete_wrong size = rw size refl

  pub replace_agrees :
      suc (length rest) ≡ 35
      → decode_type itch50 b'U' (b'U' ∷ rest) ≡ reference_type b'U' (b'U' ∷ rest)
  unfolding decode_type reference_type itch50
  replace_agrees size = rw size refl

  pub replace_wrong :
      (suc (length rest) == 35) ≡ false
      → reference_type b'U' (b'U' ∷ rest) ≡ throw invalid_size_type
  unfolding reference_type
  replace_wrong size = rw size refl
