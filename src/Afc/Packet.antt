-- ===== src/Afc/Packet.antt =====
-- src/afc.h: the packet header and the client; the error codes of include/libimobiledevice/afc.h.
use libiphone_debian.Common.{ℕ, ◌+◌, ◌%◌, ◌^◌, Bool, List, [], ◌∷◌, ◌++◌, take, drop}
use libiphone_debian.Common.Bytes.{le_bytes, le_value}
pub mod Codec

-- "CFA6LPAA"
abbrev pub afc_magic : List ℕ
afc_magic = b'C' ∷ b'F' ∷ b'A' ∷ b'6' ∷ b'L' ∷ b'P' ∷ b'A' ∷ b'A' ∷ []

-- sizeof(AFCPacket)
abbrev pub header_size : ℕ
header_size = 40

pub record AfcPacket : Type 0 where
  pub magic : List ℕ
  pub entire_length : ℕ
  pub this_length : ℕ
  pub packet_num : ℕ
  pub operation : ℕ

-- The structure in memory, as AFCPacket_to_LE leaves it.
unfoldable pub encode_packet : AfcPacket → List ℕ
encode_packet p =
    p.magic
    ++ (le_bytes 8 p.entire_length
        ++ (le_bytes 8 p.this_length ++ (le_bytes 8 p.packet_num ++ le_bytes 8 p.operation)))

-- The structure read back through AFCPacket_from_LE.
unfoldable pub decode_packet : List ℕ → AfcPacket
decode_packet bs = record {
  magic = take 8 bs;
  entire_length = le_value (take 8 (drop 8 bs));
  this_length = le_value (take 8 (drop 16 bs));
  packet_num = le_value (take 8 (drop 24 bs));
  operation = le_value (take 8 (drop 32 bs));
}

-- `connection` says whether the pointer is set. `afc_packet` is never NULL in a client that
-- afc_client_new_from_connection has returned. `locked` is the state of the mutex.
pub record AfcClient : Type 0 where
  pub connection : Bool
  pub afc_packet : AfcPacket
  pub file_handle : ℕ
  pub lock : ℕ
  pub locked : Bool
  pub own_connection : Bool
