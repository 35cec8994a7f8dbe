-- ===== src/Afc/Transfer/Framing.antt =====
-- src/afc.c: afc_dispatch_packet and the bytes that go out.
use libiphone_debian.Common.{
  drop-append_length, take-append_length, ◌<◌, ℕ, ◌+◌, ◌%◌, ◌^◌, ◌≡◌, refl, ◌⊎◌, true, false,
  Option, List, [], ◌∷◌, ◌++◌, length, take_all, arith,
}
use libiphone_debian.Afc.Transfer.{some, prepare, sent_length, send_whole, afc_dispatch_packet}
use libiphone_debian.Afc.Packet.{header_size, AfcClient, encode_packet}
use mathlib.Core.List.{append_assoc, append-nil}
use libiphone_debian.Channel.{Channel, IsReliable}
use libiphone_debian.Afc.Error
use libiphone_debian.Afc.Packet.Codec.{length-encode_packet}

abbrev pub counted : AfcClient → ℕ
counted c = c.afc_packet.packet_num

nil_of_length : (xs : List ℕ) → length xs ≡ 0 → xs ≡ []
nil_of_length [] h = refl
nil_of_length (x ∷ xs) h = absurd (omega arith)

module _ {W : Type 0} (ch : Channel W) where
  -- On a client with a connection every call numbers its packet one higher, modulo 2 ^ 64, and touches
  -- nothing else of the client than the packet; the result is success or an internal error.
  pub dispatch_numbers :
      (buf : Option (List ℕ)) (n : ℕ) (c : AfcClient) (w : W)
      → c.connection ≡ true
      → let d = afc_dispatch_packet ch buf n c w in
        (d.client ≡ record c { afc_packet = prepare (sent_length buf n) c.afc_packet })
        × (counted d.client ≡ (counted c + 1) % 2 ^ 64)
        × ((d.ret ≡ Error.success) ⊎ (d.ret ≡ Error.internal_error))
  unfolding afc_dispatch_packet
  dispatch_numbers buf n c w h = ground arith

  -- A client with no connection sends nothing.
  pub dispatch_closed :
      (buf : Option (List ℕ)) (n : ℕ) (c : AfcClient) (w : W)
      → c.connection ≡ false
      → let d = afc_dispatch_packet ch buf n c w in
        (d.ret ≡ Error.invalid_arg) × (d.client ≡ c) × (d.world ≡ w)
  unfolding afc_dispatch_packet
  dispatch_closed buf n c w h = ground arith

  -- Every call keeps all of the client but the packet's lengths and its number.
  pub dispatch_keeps :
      (buf : Option (List ℕ)) (n : ℕ) (c : AfcClient) (w : W)
      → let d = afc_dispatch_packet ch buf n c w in
        (d.client.connection ≡ c.connection)
        × (d.client.locked ≡ c.locked)
        × (d.client.afc_packet.magic ≡ c.afc_packet.magic)
        × (d.client.afc_packet.operation ≡ c.afc_packet.operation)
        × ((counted d.client ≡ counted c) ⊎ (counted d.client ≡ (counted c + 1) % 2 ^ 64))
  unfolding afc_dispatch_packet
  dispatch_keeps buf n c w = ground arith

  module _ {sent : W → List ℕ} (rel : IsReliable ch sent) where
    send_whole-wire :
        (buf : List ℕ) (c : AfcClient) (w : W)
        → length c.afc_packet.magic ≡ 8
        → let d = send_whole ch buf (length buf) c w in
          (d.ret ≡ Error.success) × (sent d.world ≡ sent w ++ (encode_packet c.afc_packet ++ buf))
    unfolding send_whole
    send_whole-wire buf c w h =
        let head = encode_packet c.afc_packet in
        let w1 = (ch.send head w).1 in
        ground (
          arith,
          length-encode_packet c.afc_packet h,
          rel.sends_all head w,
          rel.send_logs head w,
          rel.send_logs buf w1,
          take_all (length buf) buf,
          append_assoc (sent w) head buf,
          append-nil head,
          nil_of_length buf,
        )

    -- On a client with a connection that sends everything, a magic of 8 bytes and an entire length
    -- of 0, the call succeeds for data that with its header stays below 2 ^ 32 bytes: the header
    -- goes out, with both lengths filled in and the next number, and then the data; the count is
    -- that of all the bytes.
    pub dispatch_whole :
        (buf : List ℕ) (c : AfcClient) (w : W)
        → c.connection ≡ true
        → c.afc_packet.entire_length ≡ 0
        → length c.afc_packet.magic ≡ 8
        → header_size + length buf < 2 ^ 32
        → let p = record c.afc_packet {
          entire_length = header_size + length buf;
          this_length = header_size + length buf;
          packet_num = (counted c + 1) % 2 ^ 64;
        } in
          let d = afc_dispatch_packet ch (some buf) (length buf) c w in
          (d.ret ≡ Error.success)
          × (sent d.world ≡ sent w ++ (encode_packet p ++ buf))
          × (d.bytes_sent ≡ header_size + length buf)
          × (d.client ≡ record c { afc_packet = p })
    unfolding afc_dispatch_packet
    dispatch_whole buf c w live zero_length magic fits =
        let p = record c.afc_packet {
          entire_length = header_size + length buf;
          this_length = header_size + length buf;
          packet_num = (counted c + 1) % 2 ^ 64;
        } in
        let head = encode_packet p in
        let w1 = (ch.send head w).1 in
        ground (
          arith,
          length-encode_packet p magic,
          rel.sends_all head w,
          rel.sends_all buf w1,
          rel.send_logs head w,
          rel.send_logs buf w1,
          take_all (length buf) buf,
          append_assoc (sent w) head buf,
          append-nil head,
          nil_of_length buf,
        )

    -- On a client with a connection that sends everything and a magic of 8 bytes, where the
    -- lengths are set to a header with some parameters and to that with some payload, below 2 ^ 32
    -- in all, the call succeeds: the header and the parameters go out first, then the payload, the
    -- count is that of the payload alone, and of the client only the number of its packet goes up.
    pub dispatch_split :
        (params payload : List ℕ) (c : AfcClient) (w : W)
        → c.connection ≡ true
        → 0 < length params
        → 0 < length payload
        → c.afc_packet.this_length ≡ header_size + length params
        → c.afc_packet.entire_length ≡ header_size + length params + length payload
        → length c.afc_packet.magic ≡ 8
        → header_size + length params + length payload < 2 ^ 32
        → let p = record c.afc_packet { packet_num = (counted c + 1) % 2 ^ 64 } in
          let d =
            afc_dispatch_packet ch
              (some (params ++ payload))
              (length payload + length params)
              c
              w in
          (d.ret ≡ Error.success)
          × (sent d.world ≡ sent w ++ (encode_packet p ++ (params ++ payload)))
          × (d.bytes_sent ≡ length payload)
          × (d.client ≡ record c { afc_packet = p })
    unfolding afc_dispatch_packet
    dispatch_split params payload c w live some_params some_payload this entire magic fits =
        let p = record c.afc_packet { packet_num = (counted c + 1) % 2 ^ 64 } in
        let head = encode_packet p in
        let w1 = (ch.send head w).1 in
        let w2 = (ch.send params w1).1 in
        ground (
          arith,
          length-encode_packet p magic,
          rel.sends_all head w,
          rel.sends_all params w1,
          rel.sends_all payload w2,
          rel.send_logs head w,
          rel.send_logs params w1,
          rel.send_logs payload w2,
          take-append_length params payload,
          drop-append_length params payload,
          take_all (length payload) payload,
          append_assoc (sent w) head (params ++ payload),
          append_assoc (sent w ++ head) params payload,
        )
