-- ===== src/Schema/Parser/Layout.antt =====
-- What the compiler promises of a protocol: fields laid out one behind the other, of known types, and no
-- name or type byte twice.
use market_wire.Prelude.{
  ℕ, ◌+◌, ◌%◌, ◌^◌, ◌<◌, ◌≡◌, ◌≢◌, refl, ◌∙◌, List, [], ◌∷◌, ◌++◌, All, All-append, Pairwise,
  Pairwise-append_one, false, Bool-cases, inl, inr, ◌==◌, ==_refl,
}
use market_wire.Prelude.Text.{String, bytes_of}
use market_wire.Schema.Parser.{
  Field, Message, Protocol, add_field, field_named, message_named, message_typed,
}
use market_wire.Wire.{ByteList, bytes_equal}
use market_wire.Wire.Bytes.{bytes_equal_refl}

-- From an offset on, each field begins where the one before it ends, and the last ends at `last`.
abbrev pub Consecutive : ℕ → List Field → ℕ → Type 0
Consecutive start [] last = last ≡ start
Consecutive start (f ∷ fields) last =
    (f.offset ≡ start) × Consecutive ((start + f.width) % 2 ^ 64) fields last

abbrev HasType : Field → String → Type 0
HasType f name = f.type ≡ bytes_of name

-- The types of the schema language, with their widths.
pub data IsTyped (f : Field) : Type 0 where
  ascii : HasType f "ascii" → 0 < f.width → IsTyped f
  u8 : HasType f "u8" → f.width ≡ 1 → IsTyped f
  char : HasType f "char" → f.width ≡ 1 → IsTyped f
  u16 : HasType f "u16_be" → f.width ≡ 2 → IsTyped f
  u32 : HasType f "u32_be" → f.width ≡ 4 → IsTyped f
  price4 : HasType f "price4" → f.width ≡ 4 → IsTyped f
  u48 : HasType f "u48_be" → f.width ≡ 6 → IsTyped f
  u64 : HasType f "u64_be" → f.width ≡ 8 → IsTyped f
  price8 : HasType f "price8" → f.width ≡ 8 → IsTyped f

pub record IsLaidOut (m : Message) : Type 0 where
  pub consecutive : Consecutive 1 m.fields m.size
  pub typed : All IsTyped m.fields
  pub names : Pairwise (λ f g. f.name ≢ g.name) m.fields

pub record IsWellFormed (p : Protocol) : Type 0 where
  pub messages : All IsLaidOut p.messages
  pub names : Pairwise (λ m n. m.name ≢ n.name) p.messages
  pub types : Pairwise (λ m n. m.type ≢ n.type) p.messages

Consecutive-append_one :
    (start : ℕ) (fields : List Field) (last : ℕ) (f : Field)
    → f.offset ≡ last
    → Consecutive start fields last
    → Consecutive start (fields ++ (f ∷ [])) ((last + f.width) % 2 ^ 64)
Consecutive-append_one start [] last f at c = (at ∙ c, rw c refl)
Consecutive-append_one start (g ∷ fields) last f at c =
    (c.0, Consecutive-append_one ((start + g.width) % 2 ^ 64) fields last f at c.1)

field_fresh :
    (name : ByteList) (fields : List Field)
    → field_named name fields ≡ false
    → All (λ f. f.name ≢ name) fields
unfolding field_named
field_fresh name [] h = tt
field_fresh name (f ∷ fields) h = elim (Bool-cases (bytes_equal name f.name)) [
  | inl same ↦ absurd (cc (rw same at h))
  | inr other ↦
      (λ e. cc (rw (e, bytes_equal_refl name) at other), field_fresh name fields (rw other at h))
]

message_fresh :
    (name : ByteList) (messages : List Message)
    → message_named name messages ≡ false
    → All (λ m. m.name ≢ name) messages
unfolding message_named
message_fresh name [] h = tt
message_fresh name (m ∷ messages) h = elim (Bool-cases (bytes_equal name m.name)) [
  | inl same ↦ absurd (cc (rw same at h))
  | inr other ↦ (
    λ e. cc (rw (e, bytes_equal_refl name) at other),
    message_fresh name messages (rw other at h),
  )
]

type_fresh :
    (type : ℕ) (messages : List Message)
    → message_typed type messages ≡ false
    → All (λ m. m.type ≢ type) messages
unfolding message_typed
type_fresh type [] h = tt
type_fresh type (m ∷ messages) h = elim (Bool-cases (type == m.type)) [
  | inl same ↦ absurd (cc (rw same at h))
  | inr other ↦ (λ e. cc (rw (e, ==_refl type) at other), type_fresh type messages (rw other at h))
]

pub add_field-IsLaidOut :
    (m : Message) (f : Field)
    → IsLaidOut m
    → f.offset ≡ m.size
    → IsTyped f
    → field_named f.name m.fields ≡ false
    → IsLaidOut (add_field m f)
unfolding add_field
add_field-IsLaidOut m f h at typed fresh = record {
  consecutive = Consecutive-append_one 1 m.fields m.size f at h.consecutive;
  typed = All-append IsTyped m.fields (f ∷ []) h.typed (typed, tt);
  names = Pairwise-append_one _ m.fields f (field_fresh f.name m.fields fresh) h.names;
}

pub add_message-IsWellFormed :
    (p : Protocol) (m : Message)
    → IsWellFormed p
    → IsLaidOut m
    → message_named m.name p.messages ≡ false
    → message_typed m.type p.messages ≡ false
    → IsWellFormed (record p { messages = p.messages ++ (m ∷ []) })
add_message-IsWellFormed p m h laid name type = record {
  messages = All-append IsLaidOut p.messages (m ∷ []) h.messages (laid, tt);
  names = Pairwise-append_one _ p.messages m (message_fresh m.name p.messages name) h.names;
  types = Pairwise-append_one _ p.messages m (type_fresh m.type p.messages type) h.types;
}
