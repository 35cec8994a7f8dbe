-- ===== src/Afc/Transfer.antt =====
-- src/afc.c: afc_dispatch_packet and afc_receive_data, the two halves of every request, over an
-- abstract channel. Buffers are lists; the size that malloc was given is checked at each write.
pub mod Framing
pub mod Receiving
pub mod Status
use libiphone_debian.Common.{
  ℕ, zero, suc, ◌+◌, ◌-◌, ◌%◌, ◌^◌, not, ◌&&◌, Option, none, some, List, [], ◌++◌, length, take,
  drop, ltb, leb, ◌==◌, if◌then◌else◌,
}
use libiphone_debian.Common.Outcome.{Outcome, done, fault, running, buffer_overflow, ◌>>=◌}
use libiphone_debian.Common.Bytes.{le_value}
use libiphone_debian.Channel.{Channel}
use libiphone_debian.Afc.Op
use libiphone_debian.Afc.Error
use libiphone_debian.Afc.Packet.{AfcPacket, AfcClient, header_size, encode_packet, decode_packet}

-- The count of the packet goes up, and lengths that the caller left at 0 are filled in.
pub prepare : ℕ → AfcPacket → AfcPacket
prepare len p =
    let entire = if p.entire_length == 0 then header_size + len else p.entire_length in
    let this = if p.entire_length == 0 then entire else p.this_length in
    record p {
      packet_num = (p.packet_num + 1) % 2 ^ 64;
      entire_length = entire;
      this_length = if this == 0 then header_size else this;
    }

-- A NULL pointer has nothing behind it, and its length counts as 0.
abbrev pub pointee : Option (List ℕ) → List ℕ
pointee none = []
pointee (some bs) = bs

abbrev pub sent_length : Option (List ℕ) → ℕ → ℕ
sent_length none n = 0
sent_length (some bs) n = n

-- What afc_dispatch_packet leaves: its result, *bytes_sent, the client and the world.
pub record Dispatched (W : Type 0) : Type 0 where
  pub ret : ℕ
  pub bytes_sent : ℕ
  pub client : AfcClient
  pub world : W

-- What afc_receive_data leaves: its result, *dump_here and *bytes_recv.
pub record Received : Type 0 where
  pub ret : ℕ
  pub dump_here : Option (List ℕ)
  pub bytes_recv : ℕ

abbrev pub failed : ℕ → ℕ → Received
failed code bytes = record { ret = code; dump_here = none; bytes_recv = bytes }

abbrev pub received : List ℕ → Received
received buf = record { ret = Error.success; dump_here = some buf; bytes_recv = length buf }

-- (uint32_t)length - sizeof(AFCPacket), kept in a uint32_t
abbrev pub body_length : ℕ → ℕ
body_length n = (n % 2 ^ 32 + 2 ^ 32 - header_size) % 2 ^ 32

-- The first eight bytes of the packet as a number, all ones where there are fewer.
unfoldable pub first_param : List ℕ → ℕ
first_param buf = if leb 8 (length buf) then le_value (take 8 buf) else 2 ^ 64 - 1

-- The checks behind the transfer. A status other than 0 is returned as an int16_t.
unfoldable pub check_operation : AfcPacket → List ℕ → ℕ → Received
unfolding first_param
check_operation h buf bytes =
    if h.operation == Op.status
    then (if first_param buf == 0 then received buf else failed (first_param buf % 2 ^ 16) bytes)
    else if h.operation == Op.bulk
    then received buf
    else if h.operation == Op.file_open_res
    then received buf
    else if h.operation == Op.file_tell_res
    then received buf
    else failed Error.op_not_supported 0

module _ {W : Type 0} (ch : Channel W) where
  -- Header and parameters in one packet.
  send_whole : List ℕ → ℕ → AfcClient → W → Dispatched W
  send_whole buf len c w =
      let (sent, w1) = ch.send (encode_packet c.afc_packet) w in
      let (sent_data, w2) = ch.send (take len buf) w1 in
      if sent == 0
      then record { ret = Error.success; bytes_sent = 0; client = c; world = w1 }
      else if ltb 0 len
      then record {
        ret = Error.success;
        bytes_sent = (sent + sent_data) % 2 ^ 32;
        client = c;
        world = w2;
      }
      else record { ret = Error.success; bytes_sent = sent; client = c; world = w1 }

  -- Header, parameters and payload, where this_length and entire_length differ. The parameters lie
  -- within the buffer: afc_file_write, which alone sets the lengths apart, hands over 8 bytes of them.
  send_split : List ℕ → ℕ → AfcClient → W → Dispatched W
  send_split buf len c w =
      let p = c.afc_packet in
      let offset = (p.this_length + 2 ^ 64 - header_size) % 2 ^ 32 in
      let (sent, w1) = ch.send (encode_packet p) w in
      let (sent_params, w2) = ch.send (take offset buf) w1 in
      let (sent_rest, w3) =
        ch.send (take ((len + 2 ^ 32 - offset) % 2 ^ 32) (drop offset buf)) w2 in
      if ltb len ((p.entire_length + 2 ^ 64 - p.this_length) % 2 ^ 64)
      then record { ret = Error.internal_error; bytes_sent = 0; client = c; world = w }
      else if sent == 0
      then record { ret = Error.success; bytes_sent = 0; client = c; world = w1 }
      else if sent_params == 0
      then record { ret = Error.success; bytes_sent = sent; client = c; world = w2 }
      else record { ret = Error.success; bytes_sent = sent_rest; client = c; world = w3 }

  -- `buf` is `none` for a NULL pointer. With no connection C leaves *bytes_sent as it
  -- was, which is 0 in the requests that do not test the connection themselves.
  unfoldable pub afc_dispatch_packet : Option (List ℕ) → ℕ → AfcClient → W → Dispatched W
  unfolding prepare send_whole send_split
  afc_dispatch_packet buf n c w =
      let len = sent_length buf n in
      let bytes = pointee buf in
      let c' = record c { afc_packet = prepare len c.afc_packet } in
      if not c.connection
      then record { ret = Error.invalid_arg; bytes_sent = 0; client = c; world = w }
      else if c'.afc_packet.this_length == c'.afc_packet.entire_length
      then send_whole bytes len c' w
      else send_split bytes len c' w

  -- The loop that reads until `entire_len` bytes have come; `buf` is what has come so far.
  unfoldable pub fill : ℕ → ℕ → List ℕ → ℕ → W → Outcome (List ℕ × ℕ × W)
  fill zero entire_len buf bytes w = running
  fill (suc fuel) entire_len buf bytes w =
      let (got, w') = ch.receive (entire_len - length buf) w in
      let rest = fill fuel entire_len (buf ++ got) (length got) w' in
      if ltb (length buf) entire_len
      then (if length got == 0 then done (buf, 0, w') else rest)
      else done (buf, bytes, w)

  -- Each round reads a byte at least, so `entire_len + 1` rounds are enough.
  unfoldable pub complete : AfcPacket → ℕ → List ℕ → ℕ → W → Outcome (Received × W)
  complete h entire_len buf bytes w = do
    (buf', bytes', w') ← fill (suc entire_len) entire_len buf bytes w
    done (check_operation h buf' bytes', w')

  -- The first read, of `this_len` bytes into a buffer of `entire_len` bytes.
  unfoldable pub receive_body : AfcPacket → ℕ → ℕ → W → Outcome (Received × W)
  receive_body h entire_len this_len w =
      let (got, w') = ch.receive this_len w in
      if ltb 0 this_len
      then (if ltb entire_len (length got)
          then fault buffer_overflow
          else if length got == 0
          then done (failed Error.not_enough_data 0, w')
          else if ltb (length got) this_len
          then done (failed Error.not_enough_data (length got), w')
          else complete h entire_len got (length got) w')
      else complete h entire_len [] header_size w

  -- The checks of a header that has come in full.
  unfoldable pub receive_checked : AfcClient → AfcPacket → W → Outcome (Received × W)
  receive_checked c h w =
      if not (h.packet_num == c.afc_packet.packet_num)
      then done (failed Error.op_header_invalid header_size, w)
      else if ltb h.this_length header_size
      then done (failed Error.op_header_invalid header_size, w)
      else if h.this_length == h.entire_length && h.entire_length == header_size
      then done (failed (if h.operation == Op.bulk then Error.success else Error.io_error) 0, w)
      else receive_body h (body_length h.entire_length) (body_length h.this_length) w

  unfoldable pub afc_receive_data : AfcClient → W → Outcome (Received × W)
  afc_receive_data c w =
      let (header, w') = ch.receive header_size w in
      if length header == 0
      then done (failed Error.mux_error 0, w')
      else if ltb (length header) header_size
      then done (failed Error.mux_error (length header), w')
      else receive_checked c (decode_packet header) w'
