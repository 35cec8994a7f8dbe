-- ===== src/Lockdown/Strings.antt =====
-- src/lockdown.c: the strings of the protocol.
use libiphone_debian.Common.{[], ◌∷◌}
use libiphone_debian.Common.CString.{CString}

abbrev pub request_text : CString
request_text = b'R' ∷ b'e' ∷ b'q' ∷ b'u' ∷ b'e' ∷ b's' ∷ b't' ∷ []

abbrev pub result_text : CString
result_text = b'R' ∷ b'e' ∷ b's' ∷ b'u' ∷ b'l' ∷ b't' ∷ []

abbrev pub success_text : CString
success_text = b'S' ∷ b'u' ∷ b'c' ∷ b'c' ∷ b'e' ∷ b's' ∷ b's' ∷ []

abbrev pub failure_text : CString
failure_text = b'F' ∷ b'a' ∷ b'i' ∷ b'l' ∷ b'u' ∷ b'r' ∷ b'e' ∷ []

abbrev pub label_text : CString
label_text = b'L' ∷ b'a' ∷ b'b' ∷ b'e' ∷ b'l' ∷ []

abbrev pub stop_session_text : CString
stop_session_text = b'S' ∷ b't' ∷ b'o' ∷ b'p' ∷ b'S' ∷ b'e' ∷ b's' ∷ b's' ∷ b'i' ∷ b'o' ∷ b'n' ∷ []

abbrev pub session_id_text : CString
session_id_text = b'S' ∷ b'e' ∷ b's' ∷ b's' ∷ b'i' ∷ b'o' ∷ b'n' ∷ b'I' ∷ b'D' ∷ []

abbrev pub query_type_text : CString
query_type_text = b'Q' ∷ b'u' ∷ b'e' ∷ b'r' ∷ b'y' ∷ b'T' ∷ b'y' ∷ b'p' ∷ b'e' ∷ []

abbrev pub type_text : CString
type_text = b'T' ∷ b'y' ∷ b'p' ∷ b'e' ∷ []

abbrev pub domain_text : CString
domain_text = b'D' ∷ b'o' ∷ b'm' ∷ b'a' ∷ b'i' ∷ b'n' ∷ []

abbrev pub key_text : CString
key_text = b'K' ∷ b'e' ∷ b'y' ∷ []

abbrev pub get_value_text : CString
get_value_text = b'G' ∷ b'e' ∷ b't' ∷ b'V' ∷ b'a' ∷ b'l' ∷ b'u' ∷ b'e' ∷ []

abbrev pub value_text : CString
value_text = b'V' ∷ b'a' ∷ b'l' ∷ b'u' ∷ b'e' ∷ []

abbrev pub set_value_text : CString
set_value_text = b'S' ∷ b'e' ∷ b't' ∷ b'V' ∷ b'a' ∷ b'l' ∷ b'u' ∷ b'e' ∷ []

abbrev pub remove_value_text : CString
remove_value_text = b'R' ∷ b'e' ∷ b'm' ∷ b'o' ∷ b'v' ∷ b'e' ∷ b'V' ∷ b'a' ∷ b'l' ∷ b'u' ∷ b'e' ∷ []

abbrev pub unique_device_id_text : CString
unique_device_id_text =
    b'U' ∷ b'n' ∷ b'i' ∷ b'q' ∷ b'u' ∷ b'e' ∷ b'D' ∷ b'e' ∷ b'v' ∷ b'i' ∷ b'c' ∷ b'e' ∷ b'I' ∷ b'D'
    ∷ []

abbrev pub device_public_key_text : CString
device_public_key_text =
    b'D' ∷ b'e' ∷ b'v' ∷ b'i' ∷ b'c' ∷ b'e' ∷ b'P' ∷ b'u' ∷ b'b' ∷ b'l' ∷ b'i' ∷ b'c' ∷ b'K' ∷ b'e'
    ∷ b'y' ∷ []

abbrev pub device_name_text : CString
device_name_text = b'D' ∷ b'e' ∷ b'v' ∷ b'i' ∷ b'c' ∷ b'e' ∷ b'N' ∷ b'a' ∷ b'm' ∷ b'e' ∷ []

abbrev pub device_certificate_text : CString
device_certificate_text =
    b'D' ∷ b'e' ∷ b'v' ∷ b'i' ∷ b'c' ∷ b'e' ∷ b'C' ∷ b'e' ∷ b'r' ∷ b't' ∷ b'i' ∷ b'f' ∷ b'i' ∷ b'c'
    ∷ b'a' ∷ b't' ∷ b'e' ∷ []

abbrev pub host_certificate_text : CString
host_certificate_text =
    b'H' ∷ b'o' ∷ b's' ∷ b't' ∷ b'C' ∷ b'e' ∷ b'r' ∷ b't' ∷ b'i' ∷ b'f' ∷ b'i' ∷ b'c' ∷ b'a' ∷ b't'
    ∷ b'e' ∷ []

abbrev pub host_id_text : CString
host_id_text = b'H' ∷ b'o' ∷ b's' ∷ b't' ∷ b'I' ∷ b'D' ∷ []

abbrev pub root_certificate_text : CString
root_certificate_text =
    b'R' ∷ b'o' ∷ b'o' ∷ b't' ∷ b'C' ∷ b'e' ∷ b'r' ∷ b't' ∷ b'i' ∷ b'f' ∷ b'i' ∷ b'c' ∷ b'a' ∷ b't'
    ∷ b'e' ∷ []

abbrev pub pair_record_text : CString
pair_record_text = b'P' ∷ b'a' ∷ b'i' ∷ b'r' ∷ b'R' ∷ b'e' ∷ b'c' ∷ b'o' ∷ b'r' ∷ b'd' ∷ []

abbrev pub pair_text : CString
pair_text = b'P' ∷ b'a' ∷ b'i' ∷ b'r' ∷ []

abbrev pub validate_pair_text : CString
validate_pair_text =
    b'V' ∷ b'a' ∷ b'l' ∷ b'i' ∷ b'd' ∷ b'a' ∷ b't' ∷ b'e' ∷ b'P' ∷ b'a' ∷ b'i' ∷ b'r' ∷ []

abbrev pub unpair_text : CString
unpair_text = b'U' ∷ b'n' ∷ b'p' ∷ b'a' ∷ b'i' ∷ b'r' ∷ []

abbrev pub error_text : CString
error_text = b'E' ∷ b'r' ∷ b'r' ∷ b'o' ∷ b'r' ∷ []

abbrev pub password_protected_text : CString
password_protected_text =
    b'P' ∷ b'a' ∷ b's' ∷ b's' ∷ b'w' ∷ b'o' ∷ b'r' ∷ b'd' ∷ b'P' ∷ b'r' ∷ b'o' ∷ b't' ∷ b'e' ∷ b'c'
    ∷ b't' ∷ b'e' ∷ b'd' ∷ []

abbrev pub invalid_host_id_text : CString
invalid_host_id_text =
    b'I' ∷ b'n' ∷ b'v' ∷ b'a' ∷ b'l' ∷ b'i' ∷ b'd' ∷ b'H' ∷ b'o' ∷ b's' ∷ b't' ∷ b'I' ∷ b'D' ∷ []

abbrev pub enter_recovery_text : CString
enter_recovery_text =
    b'E' ∷ b'n' ∷ b't' ∷ b'e' ∷ b'r' ∷ b'R' ∷ b'e' ∷ b'c' ∷ b'o' ∷ b'v' ∷ b'e' ∷ b'r' ∷ b'y' ∷ []

abbrev pub goodbye_text : CString
goodbye_text = b'G' ∷ b'o' ∷ b'o' ∷ b'd' ∷ b'b' ∷ b'y' ∷ b'e' ∷ []

abbrev pub start_session_text : CString
start_session_text =
    b'S' ∷ b't' ∷ b'a' ∷ b'r' ∷ b't' ∷ b'S' ∷ b'e' ∷ b's' ∷ b's' ∷ b'i' ∷ b'o' ∷ b'n' ∷ []

abbrev pub enable_session_ssl_text : CString
enable_session_ssl_text =
    b'E' ∷ b'n' ∷ b'a' ∷ b'b' ∷ b'l' ∷ b'e' ∷ b'S' ∷ b'e' ∷ b's' ∷ b's' ∷ b'i' ∷ b'o' ∷ b'n' ∷ b'S'
    ∷ b'S' ∷ b'L' ∷ []

abbrev pub start_service_text : CString
start_service_text =
    b'S' ∷ b't' ∷ b'a' ∷ b'r' ∷ b't' ∷ b'S' ∷ b'e' ∷ b'r' ∷ b'v' ∷ b'i' ∷ b'c' ∷ b'e' ∷ []

abbrev pub service_text : CString
service_text = b'S' ∷ b'e' ∷ b'r' ∷ b'v' ∷ b'i' ∷ b'c' ∷ b'e' ∷ []

abbrev pub port_text : CString
port_text = b'P' ∷ b'o' ∷ b'r' ∷ b't' ∷ []

abbrev pub invalid_service_text : CString
invalid_service_text =
    b'I' ∷ b'n' ∷ b'v' ∷ b'a' ∷ b'l' ∷ b'i' ∷ b'd' ∷ b'S' ∷ b'e' ∷ b'r' ∷ b'v' ∷ b'i' ∷ b'c' ∷ b'e'
    ∷ []

abbrev pub activate_text : CString
activate_text = b'A' ∷ b'c' ∷ b't' ∷ b'i' ∷ b'v' ∷ b'a' ∷ b't' ∷ b'e' ∷ []

abbrev pub activation_record_text : CString
activation_record_text =
    b'A' ∷ b'c' ∷ b't' ∷ b'i' ∷ b'v' ∷ b'a' ∷ b't' ∷ b'i' ∷ b'o' ∷ b'n' ∷ b'R' ∷ b'e' ∷ b'c' ∷ b'o'
    ∷ b'r' ∷ b'd' ∷ []

abbrev pub invalid_activation_record_text : CString
invalid_activation_record_text =
    b'I' ∷ b'n' ∷ b'v' ∷ b'a' ∷ b'l' ∷ b'i' ∷ b'd' ∷ b'A' ∷ b'c' ∷ b't' ∷ b'i' ∷ b'v' ∷ b'a' ∷ b't'
    ∷ b'i' ∷ b'o' ∷ b'n' ∷ b'R' ∷ b'e' ∷ b'c' ∷ b'o' ∷ b'r' ∷ b'd' ∷ []

abbrev pub deactivate_text : CString
deactivate_text = b'D' ∷ b'e' ∷ b'a' ∷ b'c' ∷ b't' ∷ b'i' ∷ b'v' ∷ b'a' ∷ b't' ∷ b'e' ∷ []

abbrev pub itunes_text : CString
itunes_text =
    b'c' ∷ b'o' ∷ b'm' ∷ b'.' ∷ b'a' ∷ b'p' ∷ b'p' ∷ b'l' ∷ b'e' ∷ b'.' ∷ b'm' ∷ b'o' ∷ b'b' ∷ b'i'
    ∷ b'l' ∷ b'e' ∷ b'.' ∷ b'i' ∷ b'T' ∷ b'u' ∷ b'n' ∷ b'e' ∷ b's' ∷ []

abbrev pub sync_data_classes_text : CString
sync_data_classes_text =
    b'S' ∷ b'y' ∷ b'n' ∷ b'c' ∷ b'D' ∷ b'a' ∷ b't' ∷ b'a' ∷ b'C' ∷ b'l' ∷ b'a' ∷ b's' ∷ b's' ∷ b'e'
    ∷ b's' ∷ []

abbrev pub com_apple_text : CString
com_apple_text = b'c' ∷ b'o' ∷ b'm' ∷ b'.' ∷ b'a' ∷ b'p' ∷ b'p' ∷ b'l' ∷ b'e' ∷ b'.' ∷ []

abbrev pub lockdown_type_text : CString
lockdown_type_text =
    b'c' ∷ b'o' ∷ b'm' ∷ b'.' ∷ b'a' ∷ b'p' ∷ b'p' ∷ b'l' ∷ b'e' ∷ b'.' ∷ b'm' ∷ b'o' ∷ b'b' ∷ b'i'
    ∷ b'l' ∷ b'e' ∷ b'.' ∷ b'l' ∷ b'o' ∷ b'c' ∷ b'k' ∷ b'd' ∷ b'o' ∷ b'w' ∷ b'n' ∷ []
