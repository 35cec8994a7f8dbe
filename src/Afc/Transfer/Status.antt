-- ===== src/Afc/Transfer/Status.antt =====
-- src/afc.c: the status that a device sends, through afc_receive_data.
use mathlib.Core.List.{append-nil}
use libiphone_debian.Common.{
  ◌%◌, ◌^◌, refl, ◌≢◌, ◌⊎◌, ◌≡◌, ◌∙◌, ap, ℕ, List, length, arith, some, none, [], sym,
}
use libiphone_debian.Common.Bytes.{le_bytes, length-le_bytes, le_value-le_bytes64, IsU64}
use libiphone_debian.Common.Outcome.{Returns, done}
use libiphone_debian.Channel.{Channel}
use libiphone_debian.Afc.Op
use libiphone_debian.Afc.Packet.{AfcPacket, AfcClient, header_size, encode_packet, decode_packet}
use libiphone_debian.Afc.Packet.Codec.{
  length-encode_packet, IsWellSized, decode_packet-encode_packet,
}
use libiphone_debian.Afc.Transfer.{
  Received, first_param, check_operation, fill, complete, receive_body, receive_checked,
  afc_receive_data,
}

-- The header of a status reply: eight bytes follow it.
abbrev pub status_header : List ℕ → ℕ → AfcPacket
status_header magic number = record {
  magic = magic;
  entire_length = 48;
  this_length = 48;
  packet_num = number;
  operation = Op.status;
}

status_header-IsWellSized :
    (magic : List ℕ) (number : ℕ)
    → length magic ≡ 8
    → IsU64 number
    → IsWellSized (status_header magic number)
status_header-IsWellSized magic number eight small = record {
  magic = eight;
  entire_length = omega arith;
  this_length = omega arith;
  packet_num = small;
  operation = omega arith;
}

first_param-le_bytes : (code : ℕ) → IsU64 code → first_param (le_bytes 8 code) ≡ code
unfolding first_param le_bytes
first_param-le_bytes code small = le_value-le_bytes64 code small

-- What comes of a code: the low 16 of its bits are the result, and all 64 decide over the buffer.
abbrev pub IsStatus : ℕ → Received → Type 0
IsStatus code r =
    (r.ret ≡ code % 2 ^ 16)
    × (r.bytes_recv ≡ 8)
    × ((code ≡ 0) × (r.dump_here ≡ some (le_bytes 8 code)) ⊎ ((code ≢ 0) × (r.dump_here ≡ none)))

check_operation-IsStatus :
    (magic : List ℕ) (number code : ℕ)
    → IsU64 code
    → IsStatus code (check_operation (status_header magic number) (le_bytes 8 code) 8)
unfolding check_operation
check_operation-IsStatus magic number code small =
    ground (arith, first_param-le_bytes code small, length-le_bytes 8 code)

decoded :
    (magic : List ℕ) (number : ℕ)
    → length magic ≡ 8
    → IsU64 number
    → decode_packet (encode_packet (status_header magic number)) ≡ status_header magic number
decoded magic number eight small =
    ap decode_packet (sym (append-nil _))
    ∙ decode_packet-encode_packet _ [] (status_header-IsWellSized magic number eight small)

module _ {W : Type 0} (ch : Channel W) where
  -- The body comes in with the first read, and there is nothing left for the loop.
  receive_body-whole :
      (h : AfcPacket) (code : ℕ) (w w2 : W)
      → ch.receive 8 w ≡ (le_bytes 8 code, w2)
      → receive_body ch h 8 8 w ≡ done (check_operation h (le_bytes 8 code) 8, w2)
  unfolding receive_body complete fill le_bytes
  receive_body-whole h code w w2 body = rw body refl

  receive_data-checked :
      (c : AfcClient) (magic : List ℕ) (code : ℕ) (w w1 w2 : W)
      → length magic ≡ 8
      → IsU64 c.afc_packet.packet_num
      → ch.receive header_size w ≡ (encode_packet (status_header magic c.afc_packet.packet_num), w1)
      → ch.receive 8 w1 ≡ (le_bytes 8 code, w2)
      → afc_receive_data ch c w
        ≡ done
            (check_operation (status_header magic c.afc_packet.packet_num) (le_bytes 8 code) 8, w2)
  unfolding afc_receive_data receive_checked
  receive_data-checked c magic code w w1 w2 eight number head body =
      let h = status_header magic c.afc_packet.packet_num in
      let n = length-encode_packet h eight in
      rw (head, decoded magic _ eight number)
        (ground (arith, n, receive_body-whole h code w1 w2 body))

  -- If the device answers with the 40 bytes of a status header that has the number of the client's
  -- packet and lengths of 48, whatever its magic is, and then with the 8 bytes of a 64-bit code,
  -- afc_receive_data returns. The result is the low 16 bits of the code, 8 bytes are counted, and
  -- the buffer is there exactly if all 64 bits are 0. The bug: a multiple of 65536 other than 0 is
  -- returned as success, without a buffer.
  pub receive_data-IsStatus :
      (c : AfcClient) (magic : List ℕ) (code : ℕ) (w w1 w2 : W)
      → length magic ≡ 8
      → IsU64 c.afc_packet.packet_num
      → IsU64 code
      → ch.receive header_size w ≡ (encode_packet (status_header magic c.afc_packet.packet_num), w1)
      → ch.receive 8 w1 ≡ (le_bytes 8 code, w2)
      → Returns (λ x. IsStatus code x.0 × (x.1 ≡ w2)) (afc_receive_data ch c w)
  receive_data-IsStatus c magic code w w1 w2 eight number small head body =
      rw (receive_data-checked c magic code w w1 w2 eight number head body)
        (check_operation-IsStatus magic _ code small, refl)
