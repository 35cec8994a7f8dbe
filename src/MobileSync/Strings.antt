-- ===== src/MobileSync/Strings.antt =====
-- src/mobilesync.c: the strings of the protocol.
use libiphone_debian.Common.{[], ◌∷◌}
use libiphone_debian.Common.CString.{CString}

abbrev pub sync_data_class_with_device_text : CString
sync_data_class_with_device_text =
    b'S' ∷ b'D' ∷ b'M' ∷ b'e' ∷ b's' ∷ b's' ∷ b'a' ∷ b'g' ∷ b'e' ∷ b'S' ∷ b'y' ∷ b'n' ∷ b'c' ∷ b'D'
    ∷ b'a' ∷ b't' ∷ b'a' ∷ b'C' ∷ b'l' ∷ b'a' ∷ b's' ∷ b's' ∷ b'W' ∷ b'i' ∷ b't' ∷ b'h' ∷ b'D'
    ∷ b'e' ∷ b'v' ∷ b'i' ∷ b'c' ∷ b'e' ∷ []

abbrev pub refuse_to_sync_data_class_with_computer_text : CString
refuse_to_sync_data_class_with_computer_text =
    b'S' ∷ b'D' ∷ b'M' ∷ b'e' ∷ b's' ∷ b's' ∷ b'a' ∷ b'g' ∷ b'e' ∷ b'R' ∷ b'e' ∷ b'f' ∷ b'u' ∷ b's'
    ∷ b'e' ∷ b'T' ∷ b'o' ∷ b'S' ∷ b'y' ∷ b'n' ∷ b'c' ∷ b'D' ∷ b'a' ∷ b't' ∷ b'a' ∷ b'C' ∷ b'l'
    ∷ b'a' ∷ b's' ∷ b's' ∷ b'W' ∷ b'i' ∷ b't' ∷ b'h' ∷ b'C' ∷ b'o' ∷ b'm' ∷ b'p' ∷ b'u' ∷ b't'
    ∷ b'e' ∷ b'r' ∷ []

abbrev pub cancel_session_text : CString
cancel_session_text =
    b'S' ∷ b'D' ∷ b'M' ∷ b'e' ∷ b's' ∷ b's' ∷ b'a' ∷ b'g' ∷ b'e' ∷ b'C' ∷ b'a' ∷ b'n' ∷ b'c' ∷ b'e'
    ∷ b'l' ∷ b'S' ∷ b'e' ∷ b's' ∷ b's' ∷ b'i' ∷ b'o' ∷ b'n' ∷ []

abbrev pub sync_type_fast_text : CString
sync_type_fast_text =
    b'S' ∷ b'D' ∷ b'S' ∷ b'y' ∷ b'n' ∷ b'c' ∷ b'T' ∷ b'y' ∷ b'p' ∷ b'e' ∷ b'F' ∷ b'a' ∷ b's' ∷ b't'
    ∷ []

abbrev pub sync_type_slow_text : CString
sync_type_slow_text =
    b'S' ∷ b'D' ∷ b'S' ∷ b'y' ∷ b'n' ∷ b'c' ∷ b'T' ∷ b'y' ∷ b'p' ∷ b'e' ∷ b'S' ∷ b'l' ∷ b'o' ∷ b'w'
    ∷ []

abbrev pub sync_type_reset_text : CString
sync_type_reset_text =
    b'S' ∷ b'D' ∷ b'S' ∷ b'y' ∷ b'n' ∷ b'c' ∷ b'T' ∷ b'y' ∷ b'p' ∷ b'e' ∷ b'R' ∷ b'e' ∷ b's' ∷ b'e'
    ∷ b't' ∷ []

abbrev pub finish_session_on_device_text : CString
finish_session_on_device_text =
    b'S' ∷ b'D' ∷ b'M' ∷ b'e' ∷ b's' ∷ b's' ∷ b'a' ∷ b'g' ∷ b'e' ∷ b'F' ∷ b'i' ∷ b'n' ∷ b'i' ∷ b's'
    ∷ b'h' ∷ b'S' ∷ b'e' ∷ b's' ∷ b's' ∷ b'i' ∷ b'o' ∷ b'n' ∷ b'O' ∷ b'n' ∷ b'D' ∷ b'e' ∷ b'v'
    ∷ b'i' ∷ b'c' ∷ b'e' ∷ []

abbrev pub device_finished_session_text : CString
device_finished_session_text =
    b'S' ∷ b'D' ∷ b'M' ∷ b'e' ∷ b's' ∷ b's' ∷ b'a' ∷ b'g' ∷ b'e' ∷ b'D' ∷ b'e' ∷ b'v' ∷ b'i' ∷ b'c'
    ∷ b'e' ∷ b'F' ∷ b'i' ∷ b'n' ∷ b'i' ∷ b's' ∷ b'h' ∷ b'e' ∷ b'd' ∷ b'S' ∷ b'e' ∷ b's' ∷ b's'
    ∷ b'i' ∷ b'o' ∷ b'n' ∷ []

abbrev pub get_all_records_from_device_text : CString
get_all_records_from_device_text =
    b'S' ∷ b'D' ∷ b'M' ∷ b'e' ∷ b's' ∷ b's' ∷ b'a' ∷ b'g' ∷ b'e' ∷ b'G' ∷ b'e' ∷ b't' ∷ b'A' ∷ b'l'
    ∷ b'l' ∷ b'R' ∷ b'e' ∷ b'c' ∷ b'o' ∷ b'r' ∷ b'd' ∷ b's' ∷ b'F' ∷ b'r' ∷ b'o' ∷ b'm' ∷ b'D'
    ∷ b'e' ∷ b'v' ∷ b'i' ∷ b'c' ∷ b'e' ∷ []

abbrev pub get_changes_from_device_text : CString
get_changes_from_device_text =
    b'S' ∷ b'D' ∷ b'M' ∷ b'e' ∷ b's' ∷ b's' ∷ b'a' ∷ b'g' ∷ b'e' ∷ b'G' ∷ b'e' ∷ b't' ∷ b'C' ∷ b'h'
    ∷ b'a' ∷ b'n' ∷ b'g' ∷ b'e' ∷ b's' ∷ b'F' ∷ b'r' ∷ b'o' ∷ b'm' ∷ b'D' ∷ b'e' ∷ b'v' ∷ b'i'
    ∷ b'c' ∷ b'e' ∷ []

abbrev pub clear_all_records_on_device_text : CString
clear_all_records_on_device_text =
    b'S' ∷ b'D' ∷ b'M' ∷ b'e' ∷ b's' ∷ b's' ∷ b'a' ∷ b'g' ∷ b'e' ∷ b'C' ∷ b'l' ∷ b'e' ∷ b'a' ∷ b'r'
    ∷ b'A' ∷ b'l' ∷ b'l' ∷ b'R' ∷ b'e' ∷ b'c' ∷ b'o' ∷ b'r' ∷ b'd' ∷ b's' ∷ b'O' ∷ b'n' ∷ b'D'
    ∷ b'e' ∷ b'v' ∷ b'i' ∷ b'c' ∷ b'e' ∷ []

abbrev pub device_will_clear_all_records_text : CString
device_will_clear_all_records_text =
    b'S' ∷ b'D' ∷ b'M' ∷ b'e' ∷ b's' ∷ b's' ∷ b'a' ∷ b'g' ∷ b'e' ∷ b'D' ∷ b'e' ∷ b'v' ∷ b'i' ∷ b'c'
    ∷ b'e' ∷ b'W' ∷ b'i' ∷ b'l' ∷ b'l' ∷ b'C' ∷ b'l' ∷ b'e' ∷ b'a' ∷ b'r' ∷ b'A' ∷ b'l' ∷ b'l'
    ∷ b'R' ∷ b'e' ∷ b'c' ∷ b'o' ∷ b'r' ∷ b'd' ∷ b's' ∷ []

abbrev pub acknowledge_changes_from_device_text : CString
acknowledge_changes_from_device_text =
    b'S' ∷ b'D' ∷ b'M' ∷ b'e' ∷ b's' ∷ b's' ∷ b'a' ∷ b'g' ∷ b'e' ∷ b'A' ∷ b'c' ∷ b'k' ∷ b'n' ∷ b'o'
    ∷ b'w' ∷ b'l' ∷ b'e' ∷ b'd' ∷ b'g' ∷ b'e' ∷ b'C' ∷ b'h' ∷ b'a' ∷ b'n' ∷ b'g' ∷ b'e' ∷ b's'
    ∷ b'F' ∷ b'r' ∷ b'o' ∷ b'm' ∷ b'D' ∷ b'e' ∷ b'v' ∷ b'i' ∷ b'c' ∷ b'e' ∷ []

abbrev pub process_changes_text : CString
process_changes_text =
    b'S' ∷ b'D' ∷ b'M' ∷ b'e' ∷ b's' ∷ b's' ∷ b'a' ∷ b'g' ∷ b'e' ∷ b'P' ∷ b'r' ∷ b'o' ∷ b'c' ∷ b'e'
    ∷ b's' ∷ b's' ∷ b'C' ∷ b'h' ∷ b'a' ∷ b'n' ∷ b'g' ∷ b'e' ∷ b's' ∷ []

abbrev pub device_ready_to_receive_changes_text : CString
device_ready_to_receive_changes_text =
    b'S' ∷ b'D' ∷ b'M' ∷ b'e' ∷ b's' ∷ b's' ∷ b'a' ∷ b'g' ∷ b'e' ∷ b'D' ∷ b'e' ∷ b'v' ∷ b'i' ∷ b'c'
    ∷ b'e' ∷ b'R' ∷ b'e' ∷ b'a' ∷ b'd' ∷ b'y' ∷ b'T' ∷ b'o' ∷ b'R' ∷ b'e' ∷ b'c' ∷ b'e' ∷ b'i'
    ∷ b'v' ∷ b'e' ∷ b'C' ∷ b'h' ∷ b'a' ∷ b'n' ∷ b'g' ∷ b'e' ∷ b's' ∷ []

abbrev pub remap_record_identifiers_text : CString
remap_record_identifiers_text =
    b'S' ∷ b'D' ∷ b'M' ∷ b'e' ∷ b's' ∷ b's' ∷ b'a' ∷ b'g' ∷ b'e' ∷ b'R' ∷ b'e' ∷ b'm' ∷ b'a' ∷ b'p'
    ∷ b'R' ∷ b'e' ∷ b'c' ∷ b'o' ∷ b'r' ∷ b'd' ∷ b'I' ∷ b'd' ∷ b'e' ∷ b'n' ∷ b't' ∷ b'i' ∷ b'f'
    ∷ b'i' ∷ b'e' ∷ b'r' ∷ b's' ∷ []

abbrev pub sync_device_link_entity_names_key_text : CString
sync_device_link_entity_names_key_text =
    b'S' ∷ b'y' ∷ b'n' ∷ b'c' ∷ b'D' ∷ b'e' ∷ b'v' ∷ b'i' ∷ b'c' ∷ b'e' ∷ b'L' ∷ b'i' ∷ b'n' ∷ b'k'
    ∷ b'E' ∷ b'n' ∷ b't' ∷ b'i' ∷ b't' ∷ b'y' ∷ b'N' ∷ b'a' ∷ b'm' ∷ b'e' ∷ b's' ∷ b'K' ∷ b'e'
    ∷ b'y' ∷ []

abbrev pub sync_device_link_all_records_of_pulled_entity_type_sent_key_text : CString
sync_device_link_all_records_of_pulled_entity_type_sent_key_text =
    b'S' ∷ b'y' ∷ b'n' ∷ b'c' ∷ b'D' ∷ b'e' ∷ b'v' ∷ b'i' ∷ b'c' ∷ b'e' ∷ b'L' ∷ b'i' ∷ b'n' ∷ b'k'
    ∷ b'A' ∷ b'l' ∷ b'l' ∷ b'R' ∷ b'e' ∷ b'c' ∷ b'o' ∷ b'r' ∷ b'd' ∷ b's' ∷ b'O' ∷ b'f' ∷ b'P'
    ∷ b'u' ∷ b'l' ∷ b'l' ∷ b'e' ∷ b'd' ∷ b'E' ∷ b'n' ∷ b't' ∷ b'i' ∷ b't' ∷ b'y' ∷ b'T' ∷ b'y'
    ∷ b'p' ∷ b'e' ∷ b'S' ∷ b'e' ∷ b'n' ∷ b't' ∷ b'K' ∷ b'e' ∷ b'y' ∷ []

abbrev pub no_anchor_text : CString
no_anchor_text = b'-' ∷ b'-' ∷ b'-' ∷ []

abbrev pub all_done_text : CString
all_done_text =
    b'A' ∷ b'l' ∷ b'l' ∷ b' ' ∷ b'd' ∷ b'o' ∷ b'n' ∷ b'e' ∷ b',' ∷ b' ' ∷ b't' ∷ b'h' ∷ b'a' ∷ b'n'
    ∷ b'k' ∷ b's' ∷ b' ' ∷ b'f' ∷ b'o' ∷ b'r' ∷ b' ' ∷ b't' ∷ b'h' ∷ b'e' ∷ b' ' ∷ b'm' ∷ b'e'
    ∷ b'm' ∷ b'o' ∷ b'r' ∷ b'i' ∷ b'e' ∷ b's' ∷ []

abbrev pub preparing_text : CString
preparing_text =
    b'P' ∷ b'r' ∷ b'e' ∷ b'p' ∷ b'a' ∷ b'r' ∷ b'i' ∷ b'n' ∷ b'g' ∷ b' ' ∷ b't' ∷ b'o' ∷ b' ' ∷ b'g'
    ∷ b'e' ∷ b't' ∷ b' ' ∷ b'c' ∷ b'h' ∷ b'a' ∷ b'n' ∷ b'g' ∷ b'e' ∷ b's' ∷ b' ' ∷ b'f' ∷ b'o'
    ∷ b'r' ∷ b' ' ∷ b'd' ∷ b'e' ∷ b'v' ∷ b'i' ∷ b'c' ∷ b'e' ∷ []
