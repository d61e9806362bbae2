-- ===== src/Prelude/Result.antt =====
-- Outcomes of fallible code. The constructors of `Failure` are the messages that the source throws.
use mathlib.Core.Path.{◌≡◌, refl}

pub data Failure : Type 0 where
  truncated_message short_output_buffer : Failure
  heartbeat_trailing end_of_session_trailing sequence_range_overflows trailing_bytes : Failure
  invalid_request_count session_changed sequence_exhausted : Failure
  invalid_max_orders out_of_range : Failure
  unexpected_character newline_in_string unterminated_string : Failure
  unexpected_token wrong_keyword bad_message_type duplicate_type duplicate_message : Failure
  duplicate_field zero_width bad_number unknown_field_type : Failure
  empty_itch unsupported_type length_mismatch invalid_side invalid_size_type invalid_view : Failure
  no_declaration : Failure
  datagram_too_large not_a_capture truncated_length truncated_timestamp : Failure
  length_exceeds_limit truncated_payload not_monotonic invalid_speed : Failure
  delay_too_large step_input_ended : Failure

-- `undefined` is undefined behaviour of C++, which no handler catches.
pub data Result {ℓ} (A : Type ℓ) : Type ℓ where
  ok : A → Result A
  throw : Failure → Result A
  undefined : Result A

module _ {ℓ κ} {A : Type ℓ} {B : Type κ} where
  infixl 5 ◌>>=◌
  abbrev pub ◌>>=◌ : Result A → (A → Result B) → Result B
  undefined >>= next = undefined
  throw reason >>= next = throw reason
  ok value >>= next = next value

  pub >>=-eq-ok :
      (call : Result A) (next : A → Result B) {result : B}
      → (call >>= next) ≡ ok result
      → (value : A) × (call ≡ ok value) × (next value ≡ ok result)
  >>=-eq-ok undefined next h = cc
  >>=-eq-ok (throw reason) next h = cc
  >>=-eq-ok (ok value) next h = (value, refl, h)

module _ {κ} {B : Type κ} where
  -- A call made for its exceptions only.
  infixl 5 ◌>>◌
  abbrev pub ◌>>◌ : Result (Unit {0}) → Result B → Result B
  check >> rest = check >>= λ done. rest
