-- ===== src/Afc/Tests.antt =====
-- src/afc.c: the examples, and runs of the code.
use libiphone_debian.Afc.Transfer.Status.{IsStatus, receive_data-IsStatus, status_header}
use libiphone_debian.Afc.Calls.{Call, run_all, run_all-Unblocked}
use libiphone_debian.Afc.Read.Rounds.{Rounds, asked, file_read-Rounds, read_loop_overflows}
use libiphone_debian.Common.Outcome.{Returns, Unblocked, fault, buffer_overflow, done}
use libiphone_debian.Afc.Write.Frames.{frames}
use libiphone_debian.Afc.Error.{internal_error}
use libiphone_debian.Afc.Strings.Tokens.{
  make_strings_list-layout, layout, Cuts, make_strings_list-Cuts,
}
use libiphone_debian.Afc.Transfer.Framing.{counted, dispatch_numbers, dispatch_split}
use libiphone_debian.Common.{
  take, ◌%◌, ◌<◌, ◌^◌, ◌≤◌, ◌⊎◌, false, length, none, [], arith, refl, some, true, List, ℕ, ◌++◌,
  ◌+◌, ◌∷◌, ◌≡◌,
}
use libiphone_debian.Afc.Strings.{make_strings_list}
use libiphone_debian.Afc.Session.{exchange}
use libiphone_debian.Afc.Paths.Info.{listed, find_value-listed, find_value_mistakes, value_for}
use libiphone_debian.Afc.Transfer.Receiving.{IsSettled, receive_data_ends, receive_data_overflows}
use libiphone_debian.Afc.Transfer.{
  prepare, body_length, sent_length, received, fill, complete, afc_dispatch_packet,
  afc_receive_data, check_operation, receive_body, receive_checked,
}
use libiphone_debian.Afc.Read.{afc_file_read, next_size, read_loop}
use libiphone_debian.Common.CString.{CString, string_eq}
use libiphone_debian.Afc.Session.Soundness.{RefersReady, IsReady, IsSound}
use libiphone_debian.Afc.Packet.{
  header_size, encode_packet, AfcClient, AfcPacket, afc_magic, decode_packet,
}
use libiphone_debian.Afc.Paths.{find_value}
use libiphone_debian.Afc.Write.Segments.{Acked, file_write-Acked}
use libiphone_debian.Common.Bytes.{le_bytes, le_value}
use libiphone_debian.Afc.Packet.Codec.{decode_packet-encode_packet}
use libiphone_debian.Afc.Write.{afc_file_write, dispatch_write}
use libiphone_debian.Channel.Script.{Script, script-IsReliable, script_channel}
use libiphone_debian.Afc.Op
use libiphone_debian.Afc.Error

abbrev fresh_packet : AfcPacket
fresh_packet = record {
  magic = afc_magic;
  entire_length = 0;
  this_length = 0;
  packet_num = 0;
  operation = 0;
}

abbrev fresh : AfcClient
fresh = record {
  connection = true;
  afc_packet = fresh_packet;
  file_handle = 0;
  lock = 0;
  locked = false;
  own_connection = false;
}

fresh-IsSound : IsSound fresh
fresh-IsSound = record { connected = refl; magic = refl; numbered = omega arith }

fresh-IsReady : IsReady fresh
fresh-IsReady = record { sound = fresh-IsSound; unlocked = refl }

-- A packet of the device.
abbrev reply_packet : ℕ → ℕ → List ℕ → List ℕ
reply_packet num operation body =
    encode_packet (record {
      magic = afc_magic;
      entire_length = 40 + length body;
      this_length = 40 + length body;
      packet_num = num;
      operation = operation;
    })
    ++ body

abbrev status_ok : ℕ → List ℕ
status_ok num = reply_packet num Op.status (0 ∷ 0 ∷ 0 ∷ 0 ∷ 0 ∷ 0 ∷ 0 ∷ 0 ∷ [])

abbrev at_script : List (List ℕ) → Script
at_script chunks = record { incoming = chunks; outgoing = [] }

header-round_trip_example : decode_packet (encode_packet fresh_packet ++ (1 ∷ [])) ≡ fresh_packet
header-round_trip_example = decode_packet-encode_packet fresh_packet (1 ∷ []) (record {
  magic = refl;
  entire_length = omega arith;
  this_length = omega arith;
  packet_num = omega arith;
  operation = omega arith;
})

-- The reply to a write of three bytes is success.
abbrev acked_world : Script
acked_world = at_script (status_ok 1 ∷ [])

acked :
    (c' : AfcClient) × (w' : Script) × Acked script_channel 7 0
      (1 ∷ 2 ∷ 3 ∷ [])
      (record fresh { locked = true })
      acked_world
      c'
      w'
unfolding dispatch_write afc_dispatch_packet afc_receive_data receive_checked receive_body complete
    fill check_operation encode_packet decode_packet le_bytes le_value
acked = (
  _,
  _,
  Acked.rest (1 ∷ 2 ∷ 3 ∷ []) (record fresh { locked = true }) acked_world _
      (received (0 ∷ 0 ∷ 0 ∷ 0 ∷ 0 ∷ 0 ∷ 0 ∷ 0 ∷ [])) (omega arith) (omega arith) refl refl,
)

file_write-Acked_example :
    let (c', w', a) = acked in
    (afc_file_write script_channel (some fresh) 7 (1 ∷ 2 ∷ 3 ∷ []) true acked_world
      ≡ done (record {
        ret = 0;
        bytes_written = some 3;
        client = some (record c' { locked = false });
        world = w';
      }))
    × (w'.outgoing ≡ [] ++ frames 7 0 0 (1 ∷ 2 ∷ 3 ∷ []))
file_write-Acked_example =
    file_write-Acked script_channel script-IsReliable 7 fresh acked.0 acked_world acked.1
      (1 ∷ 2 ∷ 3 ∷ []) fresh-IsReady (λ e. omega arith) (omega arith) acked.2

-- The device sends three of the five bytes that are asked for, and then an empty packet.
abbrev data_packet : ℕ → List ℕ → List ℕ
data_packet num body = reply_packet num Op.bulk body

abbrev read_world : Script
read_world = at_script (data_packet 1 (1 ∷ 2 ∷ 3 ∷ []) ∷ data_packet 2 [] ∷ [])

rounds :
    (c' : AfcClient) × (w' : Script) × Rounds script_channel 7 5 []
      (record fresh { locked = true })
      read_world
      (1 ∷ 2 ∷ 3 ∷ [])
      c'
      w'
unfolding exchange afc_dispatch_packet afc_receive_data receive_checked receive_body complete fill
    check_operation encode_packet decode_packet le_bytes le_value next_size
rounds = (
  _,
  _,
  Rounds.piece [] (1 ∷ 2 ∷ 3 ∷ []) (record fresh { locked = true }) _ read_world _ (omega arith)
      refl (omega arith) (omega arith) (Rounds.at_end (1 ∷ 2 ∷ 3 ∷ []) _ _ _ _ (omega arith) refl),
)

file_read-Rounds_example :
    let (c', w', r) = rounds in
    (afc_file_read script_channel 6 (some fresh) 7 5 read_world
      ≡ done (record {
        ret = 0;
        copied = 1 ∷ 2 ∷ 3 ∷ [];
        bytes_read = some 3;
        client = some (record c' { locked = false });
        world = w';
      }))
    × (3 ≤ 5)
file_read-Rounds_example =
    file_read-Rounds script_channel 7 5 fresh rounds.0 read_world rounds.1 (1 ∷ 2 ∷ 3 ∷ []) 6
      fresh-IsReady (λ e. omega arith) (omega arith) rounds.2

-- The device sends six bytes where two are left to read.
abbrev greedy_world : Script
greedy_world = at_script (data_packet 1 (1 ∷ 2 ∷ 3 ∷ 4 ∷ 5 ∷ 6 ∷ []) ∷ [])

greedy :
    (c1 : AfcClient) × (w1 : Script) × (asked script_channel 7 5 (9 ∷ 9 ∷ 9 ∷ []) fresh greedy_world
      ≡ done (received (1 ∷ 2 ∷ 3 ∷ 4 ∷ 5 ∷ 6 ∷ []), c1, w1))
unfolding exchange afc_dispatch_packet afc_receive_data receive_checked receive_body complete fill
    check_operation encode_packet decode_packet le_bytes le_value next_size
greedy = (_, _, refl)

read_loop_overflows_example :
    read_loop script_channel 1 7 5 (9 ∷ 9 ∷ 9 ∷ []) fresh greedy_world ≡ fault buffer_overflow
read_loop_overflows_example =
    read_loop_overflows script_channel 7 5 0 (9 ∷ 9 ∷ 9 ∷ []) (1 ∷ 2 ∷ 3 ∷ 4 ∷ 5 ∷ 6 ∷ []) fresh
      greedy.0 greedy_world greedy.1 (omega arith) greedy.2 (omega arith)

-- A header that gives 48 bytes for the first part and 41 for the whole.
abbrev long_part : Script
long_part = at_script (
    (encode_packet
        (record fresh_packet { entire_length = 41; this_length = 48; operation = Op.bulk })
      ++ (1 ∷ 2 ∷ 3 ∷ 4 ∷ 5 ∷ 6 ∷ 7 ∷ 8 ∷ []))
    ∷ [])

receive_data_ends_example :
    Returns (λ x. IsSettled x.0) (afc_receive_data script_channel fresh long_part)
    ⊎ ((afc_receive_data script_channel fresh long_part ≡ fault buffer_overflow)
        × (body_length
              (decode_packet (script_channel.receive header_size long_part).0).entire_length
            < body_length
                (decode_packet (script_channel.receive header_size long_part).0).this_length))
receive_data_ends_example = receive_data_ends script_channel fresh long_part

receive_data_overflows_example :
    afc_receive_data script_channel fresh long_part ≡ fault buffer_overflow
unfolding encode_packet decode_packet le_bytes le_value
receive_data_overflows_example =
    receive_data_overflows script_channel fresh long_part
      (refl, refl, omega arith, (λ e. omega (arith, e)), omega arith)

-- A code of 65536 behind the header of a status.
abbrev high_status : Script
high_status = at_script ((encode_packet (status_header afc_magic 0) ++ le_bytes 8 65536) ∷ [])

receive_data-IsStatus_example :
    Returns
      (λ x. IsStatus 65536 x.0 × (x.1 ≡ at_script []))
      (afc_receive_data script_channel fresh high_status)
unfolding encode_packet le_bytes
receive_data-IsStatus_example =
    receive_data-IsStatus script_channel fresh afc_magic 65536 high_status
      (at_script (le_bytes 8 65536 ∷ [])) (at_script []) refl (omega arith) (omega arith) refl refl

-- One handle byte and two data bytes.
abbrev split_client : AfcClient
split_client = record fresh {
  afc_packet = record fresh_packet { entire_length = 43; this_length = 41 };
}

dispatch_split_example :
    let p = record split_client.afc_packet { packet_num = 1 } in
    let d =
      afc_dispatch_packet script_channel (some (7 ∷ 1 ∷ 2 ∷ [])) 3 split_client (at_script []) in
    (d.ret ≡ 0)
    × (d.world.outgoing ≡ [] ++ (encode_packet p ++ (7 ∷ 1 ∷ 2 ∷ [])))
    × (d.bytes_sent ≡ 2)
    × (d.client ≡ record split_client { afc_packet = p })
dispatch_split_example =
    dispatch_split script_channel script-IsReliable (7 ∷ []) (1 ∷ 2 ∷ []) split_client
      (at_script []) refl (omega arith) (omega arith) refl refl refl (omega arith)

dispatch_numbers_example :
    let d = afc_dispatch_packet script_channel none 0 fresh (at_script []) in
    (d.client ≡ record fresh { afc_packet = prepare (sent_length none 0) fresh_packet })
    × (counted d.client ≡ (0 + 1) % 2 ^ 64)
    × ((d.ret ≡ Error.success) ⊎ (d.ret ≡ Error.internal_error))
dispatch_numbers_example = dispatch_numbers script_channel none 0 fresh (at_script []) refl

run_all-Unblocked_example :
    Unblocked
      (λ x. RefersReady x.0)
      (run_all script_channel
        (Call.remove_path (some (b'a' ∷ [])) ∷ (Call.file_read 6 7 5 ∷ (Call.file_close 7 ∷ [])))
        (some fresh)
        read_world)
run_all-Unblocked_example =
    run_all-Unblocked script_channel
      (Call.remove_path (some (b'a' ∷ [])) ∷ (Call.file_read 6 7 5 ∷ (Call.file_close 7 ∷ [])))
      (some fresh) read_world fresh-IsReady

abbrev two_names : List ℕ
two_names = b'a' ∷ b'b' ∷ 0 ∷ b'c' ∷ 0 ∷ b'd' ∷ []

make_strings_list-Cuts_example :
    (ss : List CString) × (rest : List ℕ) × Cuts (take 6 two_names) ss rest
    × (make_strings_list (some two_names) 6 ≡ done (some ss))
make_strings_list-Cuts_example = make_strings_list-Cuts two_names 6 (omega arith) (omega arith)

make_strings_list-layout_example :
    make_strings_list
      (some (layout ((b'a' ∷ []) ∷ ((b'c' ∷ []) ∷ []))))
      (length (layout ((b'a' ∷ []) ∷ ((b'c' ∷ []) ∷ []))))
    ≡ done (some ((b'a' ∷ []) ∷ ((b'c' ∷ []) ∷ [])))
make_strings_list-layout_example =
    make_strings_list-layout (b'a' ∷ []) ((b'c' ∷ []) ∷ [])
      (((λ e. omega arith, tt), ((λ e. omega arith, tt), tt)))

abbrev info_pairs : List (CString × CString)
info_pairs = ((b'M' ∷ [], b'x' ∷ []) ∷ ((b'F' ∷ [], b'9' ∷ []) ∷ []))

find_value-listed_example : find_value (b'F' ∷ []) (listed info_pairs) ≡ done (some (b'9' ∷ []))
unfolding string_eq value_for
find_value-listed_example = find_value-listed (b'F' ∷ []) info_pairs (refl, (refl, tt))

find_value_mistakes_example :
    find_value (b'x' ∷ []) (listed ((b'K' ∷ [], b'1' ∷ []) ∷ info_pairs)) ≡ done (some (b'F' ∷ []))
unfolding string_eq
find_value_mistakes_example =
    find_value_mistakes (b'x' ∷ []) (b'M' ∷ []) (b'x' ∷ []) ((b'K' ∷ [], b'1' ∷ []) ∷ [])
      ((b'F' ∷ [], b'9' ∷ []) ∷ []) ((refl, refl), tt) refl refl
