-- ===== src/Cli/Messages.antt =====
-- The sample messages are read back as the events that they were written for.
use market_wire.Prelude.{
  ℕ, zero, suc, ◌-◌, ◌^◌, ◌<◌, ◌≡◌, refl, ap, ◌∙◌, [], ◌∷◌, ◌++◌, length, replicate, take, min,
  arith, some,
}
use market_wire.Prelude.Result.{ok}
use market_wire.Cli.{padded_char, add_msg, cancel_msg}
use market_wire.Events.{symbol_from, Side, add_event, cancel_event}
use market_wire.Itch.{decode_book_event, side_from_char}
use market_wire.Schema.Itch50.{itch50}
use market_wire.Wire.Bytes.{to_be}
use market_wire.Wire.Values.{u32_value, u64_value}
use market_wire.Wire.{
  ByteList, read_loop, read_u16_be, read_u32_be, read_u48_be, read_u64_be, read_ascii_view,
  read_char,
}

-- A text as `put_ascii` writes it.
unfoldable pub chars : ℕ → ℕ → ByteList → ByteList
unfolding padded_char
chars zero i s = []
chars (suc n) i s = padded_char s i ∷ chars n (suc i) s

chars-cons : (n i c : ℕ) (s : ByteList) → chars n (suc i) (c ∷ s) ≡ chars n i s
unfolding chars padded_char
chars-cons zero i c s = refl
chars-cons (suc n) i c s =
    let head : padded_char (c ∷ s) (suc i) ≡ padded_char s i = ground arith in
    rw head (ap (λ t. padded_char s i ∷ t) (chars-cons n (suc i) c s))

chars-nil : (n i : ℕ) → chars n i [] ≡ replicate n b' '
unfolding chars padded_char
chars-nil zero i = refl
chars-nil (suc n) i = ground (arith, chars-nil n (suc i))

pub chars_lem :
    (n : ℕ) (s : ByteList)
    → chars n 0 s ≡ take (min (length s) n) s ++ replicate (n - min (length s) n) b' '
unfolding chars padded_char
chars_lem zero s = let none : min (length s) 0 ≡ 0 = omega arith in rw none refl
chars_lem (suc n) [] =
    let none : min 0 (suc n) ≡ 0 = omega arith in
    let all : suc n - 0 ≡ suc n = omega arith in rw (none, all) (chars-nil (suc n) 0)
chars_lem (suc n) (c ∷ s) =
    let head : padded_char (c ∷ s) 0 ≡ c = ground arith in
    let both : min (suc (length s)) (suc n) ≡ suc (min (length s) n) = omega arith in
    let left : suc n - suc (min (length s) n) ≡ n - min (length s) n = omega arith in
    rw (head, both, left) (ap (λ t. c ∷ t) (chars-cons n 0 c s ∙ chars_lem n s))

chars-symbol_from : (s : ByteList) → chars 8 0 s ≡ symbol_from s
unfolding symbol_from
chars-symbol_from s = chars_lem 8 s

-- An order with numbers of their widths and a side `B` or `S`, written by `add_msg`, is decoded as the add
-- event of that order, at the fixed locate, tracking number and time that `add_msg` writes.
pub decode-add_msg :
    (id side qty price : ℕ) (symbol : ByteList) (s : Side)
    → id < 2 ^ 64
    → qty < 2 ^ 32
    → price < 2 ^ 32
    → side_from_char side ≡ ok s
    → decode_book_event itch50 (add_msg id side qty symbol price)
      ≡ ok (
          some (
            add_event (record {
              meta = record { stock_locate = 1; tracking_number = 1; timestamp_ns = 1000000 };
              order = record {
                id = id;
                symbol = symbol_from symbol;
                side = s;
                quantity = qty;
                price = price;
              };
            })))
unfolding decode_book_event itch50 read_u16_be read_u32_be read_u48_be read_u64_be read_ascii_view
    read_char read_loop to_be chars add_msg
decode-add_msg id side qty price symbol s i q p h =
    rw (u64_value id i, u32_value qty q, u32_value price p, h, chars-symbol_from symbol) refl

-- Likewise for `cancel_msg` and the cancel event.
pub decode-cancel_msg :
    (id qty : ℕ)
    → id < 2 ^ 64
    → qty < 2 ^ 32
    → decode_book_event itch50 (cancel_msg id qty)
      ≡ ok (
          some (
            cancel_event (record {
              meta = record { stock_locate = 1; tracking_number = 2; timestamp_ns = 1000100 };
              order_id = id;
              canceled_shares = qty;
            })))
unfolding decode_book_event itch50 read_u16_be read_u32_be read_u48_be read_u64_be read_loop to_be
    cancel_msg
decode-cancel_msg id qty i q = rw (u64_value id i, u32_value qty q) refl
