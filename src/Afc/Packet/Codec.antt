-- ===== src/Afc/Packet/Codec.antt =====
-- src/afc.h: AFCPacket_to_LE and AFCPacket_from_LE, the encoding and decoding of the header.
use mathlib.Core.List.{append_assoc}
use libiphone_debian.Common.{
  ℕ, suc, ◌+◌, refl, ◌≡◌, ap, ◌∙◌, List, [], ◌∷◌, ◌++◌, length, take, drop, arith, length-append,
  take-append_length, drop-append_length,
}
use libiphone_debian.Common.Bytes.{IsU64, le_bytes, le_value, length-le_bytes, le_value-le_bytes64}
use libiphone_debian.Afc.Packet.{AfcPacket, header_size, encode_packet, decode_packet}

-- Each field fits its place in the header.
pub record IsWellSized (p : AfcPacket) : Type 0 where
  pub magic : length p.magic ≡ 8
  pub entire_length : IsU64 p.entire_length
  pub this_length : IsU64 p.this_length
  pub packet_num : IsU64 p.packet_num
  pub operation : IsU64 p.operation

module _ {ℓ} {A : Type ℓ} where
  take_at : (n : ℕ) (xs ys : List A) → length xs ≡ n → take n (xs ++ ys) ≡ xs
  take_at n xs ys h = rw (← h) (take-append_length xs ys)

  drop_at : (n : ℕ) (xs ys : List A) → length xs ≡ n → drop n (xs ++ ys) ≡ ys
  drop_at n xs ys h = rw (← h) (drop-append_length xs ys)

  -- A drop past the first part goes on in the second.
  drop_past : (n m : ℕ) (xs ys : List A) → length xs ≡ n → drop (n + m) (xs ++ ys) ≡ drop m ys
  drop_past n m [] ys h = let e : n + m ≡ m = omega arith in rw e
  drop_past n m (x ∷ xs) ys h =
      let e : n + m ≡ suc (length xs + m) = omega arith in rw e (drop_past (length xs) m xs ys refl)

-- A header is encoded in `header_size` bytes.
pub length-encode_packet :
    (p : AfcPacket) → length p.magic ≡ 8 → length (encode_packet p) ≡ header_size
unfolding encode_packet
length-encode_packet p h = simp (length-append, length-le_bytes) (omega arith)

record_eq :
    (p q : AfcPacket)
    → p.magic ≡ q.magic
    → p.entire_length ≡ q.entire_length
    → p.this_length ≡ q.this_length
    → p.packet_num ≡ q.packet_num
    → p.operation ≡ q.operation
    → p ≡ q
record_eq p q a b c d e = ground arith

module _ (m a b c d rest : List ℕ) (hm : length m ≡ 8) (ha : length a ≡ 8) (hb : length b ≡ 8)
    (hc : length c ≡ 8) (hd : length d ≡ 8) where
  abbrev frame : List ℕ
  frame = m ++ (a ++ (b ++ (c ++ (d ++ rest))))

  field0 : take 8 frame ≡ m
  field0 = take_at 8 m _ hm

  field1 : take 8 (drop 8 frame) ≡ a
  field1 = ap (take 8) (drop_at 8 m _ hm) ∙ take_at 8 a _ ha

  field2 : take 8 (drop 16 frame) ≡ b
  field2 = ap (take 8) (drop_past 8 8 m _ hm ∙ drop_at 8 a _ ha) ∙ take_at 8 b _ hb

  field3 : take 8 (drop 24 frame) ≡ c
  field3 =
      ap (take 8) (drop_past 8 16 m _ hm ∙ drop_past 8 8 a _ ha ∙ drop_at 8 b _ hb)
      ∙ take_at 8 c _ hc

  field4 : take 8 (drop 32 frame) ≡ d
  field4 =
      ap (take 8)
        (drop_past 8 24 m _ hm ∙ drop_past 8 16 a _ ha ∙ drop_past 8 8 b _ hb ∙ drop_at 8 c _ hc)
      ∙ take_at 8 d _ hd

-- Reading an encoded header gives every field back, whatever follows it.
pub decode_packet-encode_packet :
    (p : AfcPacket) (rest : List ℕ) → IsWellSized p → decode_packet (encode_packet p ++ rest) ≡ p
unfolding encode_packet decode_packet
decode_packet-encode_packet p rest h = simp append_assoc (
    record_eq _ _ (field0 _ _ _ _ _ rest h.magic (l _) (l _) (l _) (l _))
      (ap le_value (field1 _ _ _ _ _ rest h.magic (l _) (l _) (l _) (l _))
        ∙ le_value-le_bytes64 _ h.entire_length)
      (ap le_value (field2 _ _ _ _ _ rest h.magic (l _) (l _) (l _) (l _))
        ∙ le_value-le_bytes64 _ h.this_length)
      (ap le_value (field3 _ _ _ _ _ rest h.magic (l _) (l _) (l _) (l _))
        ∙ le_value-le_bytes64 _ h.packet_num)
      (ap le_value (field4 _ _ _ _ _ rest h.magic (l _) (l _) (l _) (l _))
        ∙ le_value-le_bytes64 _ h.operation))
  where
    l : (v : ℕ) → length (le_bytes 8 v) ≡ 8
    l v = length-le_bytes 8 v
