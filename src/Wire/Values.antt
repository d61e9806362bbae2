-- ===== src/Wire/Values.antt =====
-- The bytes of a number, put together by shifts.
use market_wire.Prelude.{ℕ, ◌*◌, ◌/◌, ◌%◌, ◌^◌, ◌<◌, ◌≡◌, ◌∙◌, bit_or, arith}
use market_wire.Wire.Bytes.{to_be, be_value-to_be, IsByte-to_be}
use market_wire.Wire.Read.{read_loop-be, four_bytes}
use market_wire.Wire.{read_loop}
use native.Mathlib.Nat.{mod-eq_of_lt}

-- What the readers compute from the bytes of a number.
pub u32_value :
    (v : ℕ)
    → v < 2 ^ 32
    → bit_or
        (bit_or
          (bit_or (v / 2 ^ 24 % 2 ^ 8 * 2 ^ 24 % 2 ^ 32) (v / 2 ^ 16 % 2 ^ 8 * 2 ^ 16 % 2 ^ 32))
          (v / 2 ^ 8 % 2 ^ 8 * 2 ^ 8 % 2 ^ 32))
        (v % 2 ^ 8)
      ≡ v
u32_value v small =
    four_bytes (v / 2 ^ 24 % 2 ^ 8) (v / 2 ^ 16 % 2 ^ 8) (v / 2 ^ 8 % 2 ^ 8) (v % 2 ^ 8)
      (omega arith) (omega arith) (omega arith) (omega arith)
    ∙ omega arith

pub u64_value : (v : ℕ) → v < 2 ^ 64 → read_loop 8 (to_be 8 v) 0 0 ≡ v
unfolding to_be
u64_value v small =
    read_loop-be 8 (to_be 8 v) 0 0 1 (IsByte-to_be 8 v) (omega arith) (omega arith) (omega arith)
    ∙ be_value-to_be 8 0 v
    ∙ omega (arith, mod-eq_of_lt small)
