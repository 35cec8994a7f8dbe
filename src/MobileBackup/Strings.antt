-- ===== src/MobileBackup/Strings.antt =====
-- src/mobilebackup.c: the strings of the protocol.
use libiphone_debian.Common.{[], ◌∷◌}
use libiphone_debian.Common.CString.{CString}

abbrev pub backup_message_type_key_text : CString
backup_message_type_key_text =
    b'B' ∷ b'a' ∷ b'c' ∷ b'k' ∷ b'u' ∷ b'p' ∷ b'M' ∷ b'e' ∷ b's' ∷ b's' ∷ b'a' ∷ b'g' ∷ b'e' ∷ b'T'
    ∷ b'y' ∷ b'p' ∷ b'e' ∷ b'K' ∷ b'e' ∷ b'y' ∷ []

abbrev pub backup_manifest_key_text : CString
backup_manifest_key_text =
    b'B' ∷ b'a' ∷ b'c' ∷ b'k' ∷ b'u' ∷ b'p' ∷ b'M' ∷ b'a' ∷ b'n' ∷ b'i' ∷ b'f' ∷ b'e' ∷ b's' ∷ b't'
    ∷ b'K' ∷ b'e' ∷ b'y' ∷ []

abbrev pub backup_computer_base_path_key_text : CString
backup_computer_base_path_key_text =
    b'B' ∷ b'a' ∷ b'c' ∷ b'k' ∷ b'u' ∷ b'p' ∷ b'C' ∷ b'o' ∷ b'm' ∷ b'p' ∷ b'u' ∷ b't' ∷ b'e' ∷ b'r'
    ∷ b'B' ∷ b'a' ∷ b's' ∷ b'e' ∷ b'P' ∷ b'a' ∷ b't' ∷ b'h' ∷ b'K' ∷ b'e' ∷ b'y' ∷ []

abbrev pub backup_message_backup_request_text : CString
backup_message_backup_request_text =
    b'B' ∷ b'a' ∷ b'c' ∷ b'k' ∷ b'u' ∷ b'p' ∷ b'M' ∷ b'e' ∷ b's' ∷ b's' ∷ b'a' ∷ b'g' ∷ b'e' ∷ b'B'
    ∷ b'a' ∷ b'c' ∷ b'k' ∷ b'u' ∷ b'p' ∷ b'R' ∷ b'e' ∷ b'q' ∷ b'u' ∷ b'e' ∷ b's' ∷ b't' ∷ []

abbrev pub backup_protocol_version_text : CString
backup_protocol_version_text =
    b'B' ∷ b'a' ∷ b'c' ∷ b'k' ∷ b'u' ∷ b'p' ∷ b'P' ∷ b'r' ∷ b'o' ∷ b't' ∷ b'o' ∷ b'c' ∷ b'o' ∷ b'l'
    ∷ b'V' ∷ b'e' ∷ b'r' ∷ b's' ∷ b'i' ∷ b'o' ∷ b'n' ∷ []

abbrev pub backup_message_backup_reply_ok_text : CString
backup_message_backup_reply_ok_text =
    b'B' ∷ b'a' ∷ b'c' ∷ b'k' ∷ b'u' ∷ b'p' ∷ b'M' ∷ b'e' ∷ b's' ∷ b's' ∷ b'a' ∷ b'g' ∷ b'e' ∷ b'B'
    ∷ b'a' ∷ b'c' ∷ b'k' ∷ b'u' ∷ b'p' ∷ b'R' ∷ b'e' ∷ b'p' ∷ b'l' ∷ b'y' ∷ b'O' ∷ b'K' ∷ []

abbrev pub backup_message_backup_file_received_text : CString
backup_message_backup_file_received_text =
    b'k' ∷ b'B' ∷ b'a' ∷ b'c' ∷ b'k' ∷ b'u' ∷ b'p' ∷ b'M' ∷ b'e' ∷ b's' ∷ b's' ∷ b'a' ∷ b'g' ∷ b'e'
    ∷ b'B' ∷ b'a' ∷ b'c' ∷ b'k' ∷ b'u' ∷ b'p' ∷ b'F' ∷ b'i' ∷ b'l' ∷ b'e' ∷ b'R' ∷ b'e' ∷ b'c'
    ∷ b'e' ∷ b'i' ∷ b'v' ∷ b'e' ∷ b'd' ∷ []

abbrev pub backup_message_restore_request_text : CString
backup_message_restore_request_text =
    b'k' ∷ b'B' ∷ b'a' ∷ b'c' ∷ b'k' ∷ b'u' ∷ b'p' ∷ b'M' ∷ b'e' ∷ b's' ∷ b's' ∷ b'a' ∷ b'g' ∷ b'e'
    ∷ b'R' ∷ b'e' ∷ b's' ∷ b't' ∷ b'o' ∷ b'r' ∷ b'e' ∷ b'R' ∷ b'e' ∷ b'q' ∷ b'u' ∷ b'e' ∷ b's'
    ∷ b't' ∷ []

abbrev pub backup_notify_spring_board_text : CString
backup_notify_spring_board_text =
    b'B' ∷ b'a' ∷ b'c' ∷ b'k' ∷ b'u' ∷ b'p' ∷ b'N' ∷ b'o' ∷ b't' ∷ b'i' ∷ b'f' ∷ b'y' ∷ b'S' ∷ b'p'
    ∷ b'r' ∷ b'i' ∷ b'n' ∷ b'g' ∷ b'B' ∷ b'o' ∷ b'a' ∷ b'r' ∷ b'd' ∷ []

abbrev pub backup_preserve_settings_text : CString
backup_preserve_settings_text =
    b'B' ∷ b'a' ∷ b'c' ∷ b'k' ∷ b'u' ∷ b'p' ∷ b'P' ∷ b'r' ∷ b'e' ∷ b's' ∷ b'e' ∷ b'r' ∷ b'v' ∷ b'e'
    ∷ b'S' ∷ b'e' ∷ b't' ∷ b't' ∷ b'i' ∷ b'n' ∷ b'g' ∷ b's' ∷ []

abbrev pub backup_preserve_camera_roll_text : CString
backup_preserve_camera_roll_text =
    b'B' ∷ b'a' ∷ b'c' ∷ b'k' ∷ b'u' ∷ b'p' ∷ b'P' ∷ b'r' ∷ b'e' ∷ b's' ∷ b'e' ∷ b'r' ∷ b'v' ∷ b'e'
    ∷ b'C' ∷ b'a' ∷ b'm' ∷ b'e' ∷ b'r' ∷ b'a' ∷ b'R' ∷ b'o' ∷ b'l' ∷ b'l' ∷ []

abbrev pub backup_message_restore_reply_ok_text : CString
backup_message_restore_reply_ok_text =
    b'B' ∷ b'a' ∷ b'c' ∷ b'k' ∷ b'u' ∷ b'p' ∷ b'M' ∷ b'e' ∷ b's' ∷ b's' ∷ b'a' ∷ b'g' ∷ b'e' ∷ b'R'
    ∷ b'e' ∷ b's' ∷ b't' ∷ b'o' ∷ b'r' ∷ b'e' ∷ b'R' ∷ b'e' ∷ b'p' ∷ b'l' ∷ b'y' ∷ b'O' ∷ b'K' ∷ []

abbrev pub backup_message_restore_file_received_text : CString
backup_message_restore_file_received_text =
    b'B' ∷ b'a' ∷ b'c' ∷ b'k' ∷ b'u' ∷ b'p' ∷ b'M' ∷ b'e' ∷ b's' ∷ b's' ∷ b'a' ∷ b'g' ∷ b'e' ∷ b'R'
    ∷ b'e' ∷ b's' ∷ b't' ∷ b'o' ∷ b'r' ∷ b'e' ∷ b'F' ∷ b'i' ∷ b'l' ∷ b'e' ∷ b'R' ∷ b'e' ∷ b'c'
    ∷ b'e' ∷ b'i' ∷ b'v' ∷ b'e' ∷ b'd' ∷ []

abbrev pub backup_message_restore_application_received_text : CString
backup_message_restore_application_received_text =
    b'B' ∷ b'a' ∷ b'c' ∷ b'k' ∷ b'u' ∷ b'p' ∷ b'M' ∷ b'e' ∷ b's' ∷ b's' ∷ b'a' ∷ b'g' ∷ b'e' ∷ b'R'
    ∷ b'e' ∷ b's' ∷ b't' ∷ b'o' ∷ b'r' ∷ b'e' ∷ b'A' ∷ b'p' ∷ b'p' ∷ b'l' ∷ b'i' ∷ b'c' ∷ b'a'
    ∷ b't' ∷ b'i' ∷ b'o' ∷ b'n' ∷ b'R' ∷ b'e' ∷ b'c' ∷ b'e' ∷ b'i' ∷ b'v' ∷ b'e' ∷ b'd' ∷ []

abbrev pub backup_message_restore_complete_text : CString
backup_message_restore_complete_text =
    b'B' ∷ b'a' ∷ b'c' ∷ b'k' ∷ b'u' ∷ b'p' ∷ b'M' ∷ b'e' ∷ b's' ∷ b's' ∷ b'a' ∷ b'g' ∷ b'e' ∷ b'R'
    ∷ b'e' ∷ b's' ∷ b't' ∷ b'o' ∷ b'r' ∷ b'e' ∷ b'C' ∷ b'o' ∷ b'm' ∷ b'p' ∷ b'l' ∷ b'e' ∷ b't'
    ∷ b'e' ∷ []

abbrev pub backup_error_reason_key_text : CString
backup_error_reason_key_text =
    b'B' ∷ b'a' ∷ b'c' ∷ b'k' ∷ b'u' ∷ b'p' ∷ b'E' ∷ b'r' ∷ b'r' ∷ b'o' ∷ b'r' ∷ b'R' ∷ b'e' ∷ b'a'
    ∷ b's' ∷ b'o' ∷ b'n' ∷ b'K' ∷ b'e' ∷ b'y' ∷ []

abbrev pub backup_message_error_text : CString
backup_message_error_text =
    b'B' ∷ b'a' ∷ b'c' ∷ b'k' ∷ b'u' ∷ b'p' ∷ b'M' ∷ b'e' ∷ b's' ∷ b's' ∷ b'a' ∷ b'g' ∷ b'e' ∷ b'E'
    ∷ b'r' ∷ b'r' ∷ b'o' ∷ b'r' ∷ []
