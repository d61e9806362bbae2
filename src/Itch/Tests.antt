-- ===== src/Itch/Tests.antt =====
-- Messages as both decoders read them.
use market_wire.Prelude.{◌≡◌, refl, [], ◌∷◌, ◌++◌, some}
use market_wire.Prelude.Result.{ok, throw, length_mismatch}
use market_wire.Events.{MarketEvent, delete_event}
use market_wire.Itch.Agree.{Agreement, decode_agrees}
use market_wire.Itch.Reference.{reference_decode}
use market_wire.Itch.{decode_book_event}
use market_wire.Schema.Itch50.{itch50}
use market_wire.Wire.{ByteList, read_u16_be, read_u48_be, read_u64_be}

-- An OrderDelete message for order 7.
abbrev delete : ByteList
delete = b'D' ∷ 0 ∷ 1 ∷ 0 ∷ 2 ∷ 0 ∷ 0 ∷ 0 ∷ 0 ∷ 1 ∷ 0 ∷ 0 ∷ 0 ∷ 0 ∷ 0 ∷ 0 ∷ 0 ∷ 0 ∷ 7 ∷ []

abbrev deleted : MarketEvent
deleted = delete_event (record {
  meta = record { stock_locate = 1; tracking_number = 2; timestamp_ns = 256 };
  order_id = 7;
})

decodes : decode_book_event itch50 delete ≡ ok (some deleted)
unfolding decode_book_event itch50 read_u16_be read_u48_be read_u64_be
decodes = refl

too_long : decode_book_event itch50 (delete ++ (0 ∷ [])) ≡ throw length_mismatch
unfolding decode_book_event itch50 read_u16_be read_u48_be read_u64_be
too_long = refl

decode_agrees_example : Agreement delete (decode_book_event itch50 delete) (reference_decode delete)
decode_agrees_example = decode_agrees delete
