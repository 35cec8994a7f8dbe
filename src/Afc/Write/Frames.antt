-- ===== src/Afc/Write/Frames.antt =====
-- src/afc.c: the packets of afc_file_write on the wire.
use libiphone_debian.Common.{
  refl, sym, ap₂, zero, if◌then◌else◌, suc, drop, take, [], ◌==◌, ◌∙◌, ap, arith, length, List, ℕ,
  ◌%◌, ◌++◌, ◌+◌, ◌<◌, ◌^◌, ◌≡◌,
}
use libiphone_debian.Afc.Write.{max_write, dispatch_write}
use libiphone_debian.Afc.Session.Soundness.{IsSound}
use libiphone_debian.Afc.Transfer.Framing.{dispatch_split, counted}
use libiphone_debian.Common.Bytes.{length-le_bytes, le_bytes}
use libiphone_debian.Afc.Packet.{encode_packet, AfcClient, AfcPacket, afc_magic, header_size}
use libiphone_debian.Channel.{Channel, IsReliable}
use libiphone_debian.Afc.Op
use libiphone_debian.Afc.Error

-- The header of the `num`-th packet, for a write of `n` bytes.
pub write_header : ℕ → ℕ → AfcPacket
write_header num n = record {
  magic = afc_magic;
  entire_length = header_size + 8 + n;
  this_length = header_size + 8;
  packet_num = num;
  operation = Op.write;
}

-- One write packet on the wire: header, handle, data.
pub frame : ℕ → ℕ → List ℕ → List ℕ
unfolding write_header
frame handle num chunk =
    encode_packet (write_header num (length chunk)) ++ (le_bytes 8 handle ++ chunk)

module _ {W : Type 0} (ch : Channel W) {sent : W → List ℕ} (rel : IsReliable ch sent) where
  -- A write packet with data goes out whole, under the next number, and its data is counted.
  pub dispatch_write-frame :
      (handle : ℕ) (chunk : List ℕ) (n : ℕ) (c : AfcClient) (w : W)
      → IsSound c
      → length chunk ≡ n
      → 0 < n
      → n < 2 ^ 31
      → let d = dispatch_write ch handle chunk n c w in
        (d.ret ≡ Error.success)
        × (sent d.world ≡ sent w ++ frame handle ((counted c + 1) % 2 ^ 64) chunk)
        × (d.bytes_sent ≡ n)
        × (counted d.client ≡ (counted c + 1) % 2 ^ 64)
  unfolding dispatch_write frame write_header
  dispatch_write-frame handle chunk n c w h len some_bytes small =
      let l = length-le_bytes 8 handle in
      let p = record c.afc_packet {
        operation = Op.write;
        entire_length = header_size + 8 + n;
        this_length = header_size + 8;
      } in
      let c0 = record c { afc_packet = p } in
      let e : (n + 8) % 2 ^ 32 ≡ length chunk + length (le_bytes 8 handle) = omega (arith, l) in
      let split =
        dispatch_split ch rel (le_bytes 8 handle) chunk c0 w h.connected (omega (arith, l))
          (omega arith) (omega (arith, l)) (omega (arith, l)) (ap length h.magic)
          (omega (arith, l)) in
      let header = λ (m : List ℕ) (k : ℕ).
        sent w
        ++ (encode_packet (record {
          magic = m;
          entire_length = header_size + 8 + k;
          this_length = header_size + 8;
          packet_num = (counted c + 1) % 2 ^ 64;
          operation = Op.write;
        })
            ++ (le_bytes 8 handle ++ chunk)) in
      rw e (split.0, split.1 ∙ ap₂ header h.magic (sym len), split.2 ∙ len, ap counted split.3)

-- What a write of `bytes` puts on the wire: `segments` packets of `max_write` bytes, and one with what
-- is left, if anything is.
pub frames : ℕ → ℕ → ℕ → List ℕ → List ℕ
frames handle num zero bytes =
    if length bytes == 0 then [] else frame handle ((num + 1) % 2 ^ 64) bytes
frames handle num (suc segments) bytes =
    frame handle ((num + 1) % 2 ^ 64) (take max_write bytes)
    ++ frames handle ((num + 1) % 2 ^ 64) segments (drop max_write bytes)

pub frames-rest :
    (handle num : ℕ) (bytes : List ℕ)
    → 0 < length bytes
    → frame handle ((num + 1) % 2 ^ 64) bytes ≡ frames handle num 0 bytes
unfolding frames
frames-rest handle num bytes h = ground arith

pub frames-suc :
    (handle num k : ℕ) (bytes : List ℕ)
    → frames handle num (suc k) bytes
      ≡ frame handle ((num + 1) % 2 ^ 64) (take max_write bytes)
        ++ frames handle ((num + 1) % 2 ^ 64) k (drop max_write bytes)
unfolding frames
frames-suc handle num k bytes = refl

pub frames-nil : (handle num : ℕ) → frames handle num 0 [] ≡ []
unfolding frames
frames-nil handle num = refl
