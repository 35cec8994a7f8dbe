-- ===== src/Afc/Transfer/Receiving.antt =====
-- src/afc.c: afc_receive_data and the replies that come in.
use libiphone_debian.Common.{
  refl, inr, inl, ◌≢◌, ◌⊎◌, ◌^◌, ◌≡◌, ℕ, zero, suc, ◌+◌, ◌-◌, ◌≤◌, ◌<◌, List, ◌++◌, length, arith,
  length-append,
}
use libiphone_debian.Afc.Transfer.{
  fault, body_length, decode_packet, AfcClient, header_size, receive_checked, [], afc_receive_data,
  received, some, none, AfcPacket, Received, check_operation, complete, receive_body, fill,
}
use libiphone_debian.Channel.{IsReliable, Channel}
use libiphone_debian.Common.Outcome.{IfDone, IfDone-bind, buffer_overflow, Returns-bind, Returns}
use libiphone_debian.Afc.Error

module _ {W : Type 0} (ch : Channel W) where
  -- With fuel above what is missing, the loop ends, it never writes past `entire_len`, and it keeps what
  -- has come before.
  fill-Returns :
      (fuel entire_len : ℕ) (buf : List ℕ) (bytes : ℕ) (w : W)
      → length buf ≤ entire_len
      → entire_len < length buf + fuel
      → Returns
          (λ x. (length x.0 ≤ entire_len) × (length buf ≤ length x.0))
          (fill ch fuel entire_len buf bytes w)
  unfolding fill
  fill-Returns zero entire_len buf bytes w fits enough = absurd (omega arith)
  fill-Returns (suc fuel) entire_len buf bytes w fits enough =
      let (got, w') = ch.receive (entire_len - length buf) w in
      ground (
        arith,
        ch.receive_le (entire_len - length buf) w,
        length-append buf got,
        fill-Returns fuel entire_len (buf ++ got) (length got) w',
      )

-- What the caller finds: no buffer, or success with a buffer of `*bytes_recv` bytes.
abbrev pub IsSettled : Received → Type 0
IsSettled r =
    (r.dump_here ≡ none)
    ⊎ ((buf : List ℕ) × (r.dump_here ≡ some buf)
        × (r.ret ≡ Error.success)
        × (r.bytes_recv ≡ length buf)
        × (length buf < 2 ^ 32))

-- The reply is handed on, or there is no buffer.
check_operation_cases :
    (h : AfcPacket) (buf : List ℕ) (bytes : ℕ)
    → (check_operation h buf bytes ≡ received buf)
      ⊎ ((check_operation h buf bytes).dump_here ≡ none)
unfolding check_operation
check_operation_cases h buf bytes = ground arith

check_operation-IsSettled :
    (h : AfcPacket) (buf : List ℕ) (bytes : ℕ)
    → length buf < 2 ^ 32
    → IsSettled (check_operation h buf bytes)
check_operation-IsSettled h buf bytes fits = elim (check_operation_cases h buf bytes) [
  | inl e ↦ rw e (inr (buf, refl, refl, refl, fits))
  | inr e ↦ inl e
]

module _ {W : Type 0} (ch : Channel W) where
  complete-IsSettled :
      (h : AfcPacket) (entire_len : ℕ) (buf : List ℕ) (bytes : ℕ) (w : W)
      → length buf ≤ entire_len
      → entire_len < 2 ^ 32
      → Returns (λ x. IsSettled x.0) (complete ch h entire_len buf bytes w)
  unfolding complete
  complete-IsSettled h entire_len buf bytes w fits small =
      Returns-bind _ (λ x. IsSettled x.0) (fill ch (suc entire_len) entire_len buf bytes w) _
        (fill-Returns ch (suc entire_len) entire_len buf bytes w fits (omega arith))
        (λ x b. check_operation-IsSettled h x.0 x.1 (omega arith))

  -- A body whose first part is no longer than the whole is read into its buffer, or given up; no
  -- write leaves the buffer and the loop ends.
  receive_body-IsSettled :
      (h : AfcPacket) (entire_len this_len : ℕ) (w : W)
      → this_len ≤ entire_len
      → entire_len < 2 ^ 32
      → Returns (λ x. IsSettled x.0) (receive_body ch h entire_len this_len w)
  unfolding receive_body
  receive_body-IsSettled h entire_len this_len w fits small =
      let (got, w') = ch.receive this_len w in
      ground (
        arith,
        ch.receive_le this_len w,
        complete-IsSettled h entire_len got (length got) w',
        complete-IsSettled h entire_len [] header_size w,
      )

  -- Else the first read overflows the buffer, or brings less than was asked for.
  receive_body-longer :
      (h : AfcPacket) (entire_len this_len : ℕ) (w : W)
      → entire_len < this_len
      → Returns (λ x. IsSettled x.0) (receive_body ch h entire_len this_len w)
        ⊎ (receive_body ch h entire_len this_len w ≡ fault buffer_overflow)
  unfolding receive_body
  receive_body-longer h entire_len this_len w longer = ground arith

  -- afc_receive_data ends on every reply, whatever comes of it: the loops stop and every write
  -- stays within its buffer, and the result is success with a buffer of `*bytes_recv` bytes, or
  -- there is no buffer. The one exception is a write past the end of the buffer, and then the
  -- header gave a first part longer than the whole.
  pub receive_data_ends :
      (c : AfcClient) (w : W)
      → Returns (λ x. IsSettled x.0) (afc_receive_data ch c w)
        ⊎ ((afc_receive_data ch c w ≡ fault buffer_overflow)
            × (body_length (decode_packet (ch.receive header_size w).0).entire_length
                < body_length (decode_packet (ch.receive header_size w).0).this_length))
  unfolding afc_receive_data receive_checked
  receive_data_ends c w =
      let (head, w') = ch.receive header_size w in
      let h = decode_packet head in
      ground (
        arith,
        receive_body-IsSettled h (body_length h.entire_length) (body_length h.this_length) w',
        receive_body-longer h (body_length h.entire_length) (body_length h.this_length) w',
      )

  -- The bug: a reply with the right number, whose header gives a first part longer than the whole, is
  -- read into a buffer of the size of the whole; the write runs past its end as soon as more than that
  -- comes.
  pub receive_data_overflows :
      (c : AfcClient) (w : W)
      → (let (head, w') = ch.receive header_size w in
          let h = decode_packet head in
          (length head ≡ header_size)
          × (h.packet_num ≡ c.afc_packet.packet_num)
          × (header_size ≤ h.this_length)
          × (h.this_length ≢ h.entire_length)
          × (body_length h.entire_length < length (ch.receive (body_length h.this_length) w').0))
      → afc_receive_data ch c w ≡ fault buffer_overflow
  unfolding afc_receive_data receive_checked receive_body
  receive_data_overflows c w h =
      let (head, w') = ch.receive header_size w in
      ground (arith, ch.receive_le (body_length (decode_packet head).this_length) w')

-- Receiving sends nothing.
module _ {W : Type 0} (ch : Channel W) {sent : W → List ℕ} (rel : IsReliable ch sent) where
  fill_keeps :
      (fuel entire_len : ℕ) (buf : List ℕ) (bytes : ℕ) (w : W)
      → IfDone (λ x. sent x.2 ≡ sent w) (fill ch fuel entire_len buf bytes w)
  unfolding fill
  fill_keeps zero entire_len buf bytes w = tt
  fill_keeps (suc fuel) entire_len buf bytes w =
      let (got, w') = ch.receive (entire_len - length buf) w in
      ground (
        arith,
        rel.receive_keeps (entire_len - length buf) w,
        fill_keeps fuel entire_len (buf ++ got) (length got) w',
      )

  complete_keeps :
      (h : AfcPacket) (entire_len : ℕ) (buf : List ℕ) (bytes : ℕ) (w : W)
      → IfDone (λ x. sent x.1 ≡ sent w) (complete ch h entire_len buf bytes w)
  unfolding complete
  complete_keeps h entire_len buf bytes w =
      IfDone-bind (λ x. sent x.2 ≡ sent w) (λ x. sent x.1 ≡ sent w)
        (fill ch (suc entire_len) entire_len buf bytes w) _
        (fill_keeps (suc entire_len) entire_len buf bytes w) (λ x e. e)

  pub receive_data_keeps :
      (c : AfcClient) (w : W) → IfDone (λ x. sent x.1 ≡ sent w) (afc_receive_data ch c w)
  unfolding afc_receive_data receive_checked receive_body
  receive_data_keeps c w =
      let (head, w') = ch.receive header_size w in
      let h = decode_packet head in
      let entire_len = body_length h.entire_length in
      let this_len = body_length h.this_length in
      let (got, w2) = ch.receive this_len w' in
      ground (
        arith,
        rel.receive_keeps header_size w,
        rel.receive_keeps this_len w',
        complete_keeps h entire_len got (length got) w2,
        complete_keeps h entire_len [] header_size w',
      )
