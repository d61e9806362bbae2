-- ===== src/OrderIndex.antt =====
-- include/efe/flat_order_index.hpp: the open-addressing table from order ids to slots.
-- `entries_` is a list of fixed length; positions stay below that length.
pub mod Probe
pub mod Find
pub mod Written
pub mod Store
pub mod Insert
pub mod Adds
pub mod Erase
pub mod Capacity
pub mod Runs
mod Tests
use market_wire.Prelude.{
  ℕ, zero, suc, ◌+◌, ◌-◌, ◌*◌, ◌/◌, ◌%◌, ◌^◌, bit_and, bit_xor, Bool, true, false, ◌&&◌, Option,
  none, some, List, ltb, leb, ◌==◌, if◌then◌else◌, length, get_or, set, replicate,
}

-- `kInvalidSlot`
abbrev pub invalid_slot : ℕ
invalid_slot = 0xFFFFFFFF

pub data State : Type 0 where
  empty occupied tombstone : State

pub record Entry : Type 0 where
  pub key : ℕ
  pub value : ℕ
  pub state : State

pub record FlatOrderIndex : Type 0 where
  pub entries : List Entry
  pub mask : ℕ
  pub size : ℕ

abbrev pub is_empty : State → Bool
is_empty empty = true
is_empty occupied = false
is_empty tombstone = false

abbrev pub is_occupied : State → Bool
is_occupied empty = false
is_occupied occupied = true
is_occupied tombstone = false

abbrev pub is_tombstone : State → Bool
is_tombstone empty = false
is_tombstone occupied = false
is_tombstone tombstone = true

-- `Entry{}`
abbrev pub new_entry : Entry
new_entry = record { key = 0; value = invalid_slot; state = empty }

abbrev pub entry_at : FlatOrderIndex → ℕ → Entry
entry_at t pos = get_or t.entries pos new_entry

-- `std::bit_ceil`: doubling reaches the first power of two that is not below `n`.
unfoldable pub bit_ceil : ℕ → ℕ → ℕ → ℕ
bit_ceil zero power n = power
bit_ceil (suc fuel) power n =
    let more = bit_ceil fuel (power * 2) n in if leb n power then power else more

unfoldable pub new_index : ℕ → FlatOrderIndex
unfolding bit_ceil
new_index max_entries =
    let wanted = if ltb max_entries 8 then 16 else max_entries * 2 % 2 ^ 64 in
    let cap = bit_ceil 64 1 wanted in
    record { entries = replicate cap new_entry; mask = cap - 1; size = 0 }

-- The SplitMix64 finalizer.
unfoldable pub hash : ℕ → ℕ
hash x =
    let x1 = bit_xor x (x / 2 ^ 30) * 0xbf58476d1ce4e5b9 % 2 ^ 64 in
    let x2 = bit_xor x1 (x1 / 2 ^ 27) * 0x94d049bb133111eb % 2 ^ 64 in bit_xor x2 (x2 / 2 ^ 31)

unfoldable pub first_pos : FlatOrderIndex → ℕ → ℕ
unfolding hash
first_pos t key = bit_and (hash key) t.mask

unfoldable pub next_pos : FlatOrderIndex → ℕ → ℕ
next_pos t pos = bit_and ((pos + 1) % 2 ^ 64) t.mask

-- The loops run for the probes that are left, `entries_.size()` in all.
unfoldable pub find_loop : ℕ → FlatOrderIndex → ℕ → ℕ → Option ℕ
unfolding next_pos
find_loop zero t key pos = none
find_loop (suc n) t key pos =
    let e = entry_at t pos in
    let later = find_loop n t key (next_pos t pos) in
    if is_empty e.state
    then none
    else if is_occupied e.state && e.key == key
    then some e.value
    else later

unfoldable pub find : FlatOrderIndex → ℕ → Option ℕ
unfolding find_loop first_pos
find t key = find_loop (length t.entries) t key (first_pos t key)

-- `entries_[target] = Entry{key, value, State::Occupied}; ++size_;`
unfoldable pub store : FlatOrderIndex → ℕ → ℕ → ℕ → FlatOrderIndex
store t target key value = record t {
  entries = set t.entries target (record { key = key; value = value; state = occupied });
  size = (t.size + 1) % 2 ^ 64;
}

abbrev pub value_or : Option ℕ → ℕ → ℕ
value_or none pos = pos
value_or (some p) pos = p

-- `if (e.state == State::Tombstone && !tombstone) tombstone = pos;`
abbrev pub note_tombstone : State → ℕ → Option ℕ → Option ℕ
note_tombstone empty pos found = found
note_tombstone occupied pos found = found
note_tombstone tombstone pos found = some (value_or found pos)

-- After the loop: `if (tombstone) { … return true; } return false;`
unfoldable pub insert_reused : FlatOrderIndex → ℕ → ℕ → Option ℕ → FlatOrderIndex × Bool
unfolding store
insert_reused t key value none = (t, false)
insert_reused t key value (some p) = (store t p key value, true)

unfoldable pub insert_loop : ℕ → FlatOrderIndex → ℕ → ℕ → ℕ → Option ℕ → FlatOrderIndex × Bool
unfolding next_pos store insert_reused
insert_loop zero t key value pos found = insert_reused t key value found
insert_loop (suc n) t key value pos found =
    let e = entry_at t pos in
    let later = insert_loop n t key value (next_pos t pos) (note_tombstone e.state pos found) in
    if is_occupied e.state && e.key == key
    then (t, false)
    else if is_empty e.state
    then (store t (value_or found pos) key value, true)
    else later

unfoldable pub insert : FlatOrderIndex → ℕ → ℕ → FlatOrderIndex × Bool
unfolding insert_loop first_pos
insert t key value =
    if leb (length t.entries * 7 % 2 ^ 64) (t.size * 10 % 2 ^ 64)
    then (t, false)
    else insert_loop (length t.entries) t key value (first_pos t key) none

-- `e.state = State::Tombstone; --size_;`
unfoldable pub bury : FlatOrderIndex → ℕ → FlatOrderIndex
bury t pos = record t {
  entries = set t.entries pos (record (entry_at t pos) { state = tombstone });
  size = (t.size + (2 ^ 64 - 1)) % 2 ^ 64;
}

unfoldable pub erase_loop : ℕ → FlatOrderIndex → ℕ → ℕ → FlatOrderIndex × Bool
unfolding next_pos bury
erase_loop zero t key pos = (t, false)
erase_loop (suc n) t key pos =
    let e = entry_at t pos in
    let later = erase_loop n t key (next_pos t pos) in
    if is_empty e.state
    then (t, false)
    else if is_occupied e.state && e.key == key
    then (bury t pos, true)
    else later

unfoldable pub erase : FlatOrderIndex → ℕ → FlatOrderIndex × Bool
unfolding erase_loop first_pos
erase t key = erase_loop (length t.entries) t key (first_pos t key)
