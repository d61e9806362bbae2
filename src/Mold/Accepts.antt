-- ===== src/Mold/Accepts.antt =====
-- Every datagram that `MoldUdp64::parse_downstream` accepts, heartbeats and end-of-session markers
-- included, is the wire format of the packet that it returns.
use market_wire.Prelude.{
  ℕ, ◌+◌, ◌^◌, ◌<◌, ◌≤◌, ◌≡◌, refl, sym, ap, ◌∙◌, ◌⊎◌, Bool, true, false, List, [], ◌++◌, arith,
  length, take, drop, length-take, append-nil, All, take-append-drop, drop-append_length,
  Bool-cases, inl, inr, ◌||◌, ◌==◌, ==_iff, if◌then◌else◌,
}
use market_wire.Prelude.Result.{ok, >>=-eq-ok}
use market_wire.Mold.Framing.{frames, number, payloads_of}
use market_wire.Mold.Sound.{require-inv, be_field-inv, Scanned, read_messages-Scanned}
use market_wire.Mold.{
  MoldMessage, MoldDownstreamPacket, read_messages, read_body, read_packet, empty_packet,
  parse_downstream,
}
use market_wire.Wire.Bytes.{IsByte, to_be}
use market_wire.Wire.Read.{be_field-lt, read_u64_be_lem, read_u16_be_lem}
use market_wire.Wire.{ByteList, require_bytes, read_u64_be, read_u16_be}

-- `p` is what the datagram `d` says, and says all of it: the flags are the marker counts, and the
-- messages are the frames behind the header, numbered from the first sequence number on.
pub record IsFramed (d : ByteList) (p : MoldDownstreamPacket) : Type 0 where
  pub session_length : length p.session ≡ 10
  pub first_fits : p.first_sequence < 2 ^ 64
  pub heartbeat_flag : p.heartbeat ≡ (p.message_count == 0)
  pub end_flag : p.end_of_session ≡ (p.message_count == 0xFFFF)
  pub message_total :
      length p.messages ≡ (if p.heartbeat || p.end_of_session then 0 else p.message_count)
  pub range_fits : p.first_sequence + length p.messages ≤ 2 ^ 64
  pub numbered : p.messages ≡ number p.first_sequence (payloads_of p.messages)
  pub wire :
      d
      ≡ p.session
        ++ (to_be 8 p.first_sequence
            ++ (to_be 2 p.message_count ++ frames (payloads_of p.messages)))

drop-length : (d : ByteList) → drop (length d) d ≡ []
drop-length d = rw append-nil at (drop-append_length d [])

module _ (d session : ByteList) (first count : ℕ) (b : All IsByte d) (ten : length session ≡ 10)
    (small : first < 2 ^ 64) (room : 20 ≤ length d)
    (header : d ≡ session ++ (to_be 8 first ++ (to_be 2 count ++ drop 20 d))) where
  whole_wire :
      (rest : ByteList)
      → drop 20 d ≡ rest
      → d ≡ session ++ (to_be 8 first ++ (to_be 2 count ++ rest))
  whole_wire rest e = header ∙ ap (λ t. session ++ (to_be 8 first ++ (to_be 2 count ++ t))) e

  data-IsFramed :
      (r : List MoldMessage × ℕ)
      → count == 0 ≡ false
      → count == 0xFFFF ≡ false
      → first + count ≤ 2 ^ 64
      → r.1 ≡ length d
      → Scanned d first 0 20 count r
      → IsFramed d (record (empty_packet session first count) { messages = r.0 })
  unfolding empty_packet
  data-IsFramed r data_count not_end fits end s =
      let start : first + 0 ≡ first = omega arith in
      let stop : drop r.1 d ≡ [] = rw end (drop-length d) in
      record {
        session_length = ten;
        first_fits = small;
        heartbeat_flag = sym data_count;
        end_flag = sym not_end;
        message_total = s.count;
        range_fits = omega (arith, s.count);
        numbered = rw start at s.numbered;
        wire = whole_wire _ (s.bytes ∙ rw stop (append-nil _));
      }

  marker-IsFramed :
      (heartbeat end_of_session : Bool)
      → heartbeat ≡ (count == 0)
      → end_of_session ≡ (count == 0xFFFF)
      → (heartbeat || end_of_session) ≡ true
      → length d ≡ 20
      → IsFramed d (record (empty_packet session first count) {
        heartbeat = heartbeat;
        end_of_session = end_of_session;
      })
  unfolding empty_packet frames number
  marker-IsFramed heartbeat end_of_session hb eos marker size = record {
    session_length = ten;
    first_fits = small;
    heartbeat_flag = hb;
    end_flag = eos;
    message_total = rw marker refl;
    range_fits = omega arith;
    numbered = refl;
    wire = whole_wire [] (rw size at (drop-length d));
  }

  body-IsFramed :
      {p : MoldDownstreamPacket}
      → count == 0 ≡ false
      → count == 0xFFFF ≡ false
      → first + count ≤ 2 ^ 64
      → read_body d (empty_packet session first count) ≡ ok p
      → IsFramed d p
  unfolding read_body empty_packet
  body-IsFramed {p = p} data_count not_end fits e =
      let packet = λ (r : List MoldMessage × ℕ). record (empty_packet session first count) {
        messages = r.0;
      } in
      let (r, loop, k) = >>=-eq-ok (read_messages count d first 0 20) _ e in
      let s = read_messages-Scanned d b first count 0 20 room (omega arith) loop in
      elim (Bool-cases (r.1 == length d)) [
        | inl t ↦
            let same : packet r ≡ p = cc (rw t at k) in
            rw (← same) (data-IsFramed r data_count not_end fits ((==_iff _ _).0 t) s)
        | inr f ↦ absurd (cc (rw f at k))
      ]

  marked : Bool → Bool → MoldDownstreamPacket
  marked heartbeat end_of_session = record (empty_packet session first count) {
    heartbeat = heartbeat;
    end_of_session = end_of_session;
  }

  -- Which branch of `parse_downstream` succeeded.
  packet_branches :
      {p : MoldDownstreamPacket}
      → count < 2 ^ 16
      → read_packet d (empty_packet session first count) ≡ ok p
      → (count ≡ 0) × (length d ≡ 20) × (p ≡ marked true false)
        ⊎ (count ≡ 0xFFFF) × (length d ≡ 20) × (p ≡ marked false true)
        ⊎ (count == 0 ≡ false)
          × (count == 0xFFFF ≡ false)
          × (first + count ≤ 2 ^ 64)
          × (read_body d (empty_packet session first count) ≡ ok p)
  unfolding read_packet empty_packet marked
  packet_branches short e = ground arith

  pub packet-IsFramed :
      {p : MoldDownstreamPacket}
      → count < 2 ^ 16
      → read_packet d (empty_packet session first count) ≡ ok p
      → IsFramed d p
  unfolding marked
  packet-IsFramed short e = elim (packet_branches short e) [
    | inl (z, size, same) ↦ rw same (marker-IsFramed true false (rw z refl) (rw z refl) refl size)
    | inr (inl (z, size, same)) ↦
        rw same (marker-IsFramed false true (rw z refl) (rw z refl) refl size)
    | inr (inr (nz, nm, fits, body)) ↦ body-IsFramed nz nm fits body
  ]

-- Every accepted datagram is the wire format of the returned packet, from its first byte to its last;
-- the flags are the marker counts 0 and 0xFFFF, and the messages are numbered in order.
pub parse_downstream-IsFramed :
    (d : ByteList) {p : MoldDownstreamPacket}
    → All IsByte d
    → parse_downstream d ≡ ok p
    → IsFramed d p
unfolding parse_downstream
parse_downstream-IsFramed d b e =
    let (u, e1, k1) = >>=-eq-ok (require_bytes d 0 20) _ e in
    let (first, e2, k2) = >>=-eq-ok (read_u64_be d 10) _ k1 in
    let (count, e3, k3) = >>=-eq-ok (read_u16_be d 18) _ k2 in
    let room = require-inv d 0 20 e1 in
    let first_field = sym (read_u64_be_lem d 10 b) ∙ e2 in
    let count_field = sym (read_u16_be_lem d 18 b) ∙ e3 in
    let header : d ≡ take 10 d ++ (to_be 8 first ++ (to_be 2 count ++ drop 20 d)) =
      sym (take-append-drop 10 d)
      ∙ ap (λ t. take 10 d ++ t)
          ((be_field-inv 8 d 10 b first_field).1
            ∙ ap (λ t. to_be 8 first ++ t) (be_field-inv 2 d 18 b count_field).1) in
    packet-IsFramed d (take 10 d) first count b (omega (arith, length-take 10 d))
      (be_field-lt 8 d 10 b first_field) room header (be_field-lt 2 d 18 b count_field) k3
