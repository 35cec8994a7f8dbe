-- ===== src/InstProxy/Strings.antt =====
-- src/installation_proxy.c: the strings of the protocol.
use libiphone_debian.Common.{[], ◌∷◌}
use libiphone_debian.Common.CString.{CString}

abbrev pub application_identifier_text : CString
application_identifier_text =
    b'A' ∷ b'p' ∷ b'p' ∷ b'l' ∷ b'i' ∷ b'c' ∷ b'a' ∷ b't' ∷ b'i' ∷ b'o' ∷ b'n' ∷ b'I' ∷ b'd' ∷ b'e'
    ∷ b'n' ∷ b't' ∷ b'i' ∷ b'f' ∷ b'i' ∷ b'e' ∷ b'r' ∷ []

abbrev pub client_options_text : CString
client_options_text =
    b'C' ∷ b'l' ∷ b'i' ∷ b'e' ∷ b'n' ∷ b't' ∷ b'O' ∷ b'p' ∷ b't' ∷ b'i' ∷ b'o' ∷ b'n' ∷ b's' ∷ []

abbrev pub command_text : CString
command_text = b'C' ∷ b'o' ∷ b'm' ∷ b'm' ∷ b'a' ∷ b'n' ∷ b'd' ∷ []

abbrev pub package_path_text : CString
package_path_text = b'P' ∷ b'a' ∷ b'c' ∷ b'k' ∷ b'a' ∷ b'g' ∷ b'e' ∷ b'P' ∷ b'a' ∷ b't' ∷ b'h' ∷ []

abbrev pub browse_text : CString
browse_text = b'B' ∷ b'r' ∷ b'o' ∷ b'w' ∷ b's' ∷ b'e' ∷ []

abbrev pub current_amount_text : CString
current_amount_text =
    b'C' ∷ b'u' ∷ b'r' ∷ b'r' ∷ b'e' ∷ b'n' ∷ b't' ∷ b'A' ∷ b'm' ∷ b'o' ∷ b'u' ∷ b'n' ∷ b't' ∷ []

abbrev pub status_text : CString
status_text = b'S' ∷ b't' ∷ b'a' ∷ b't' ∷ b'u' ∷ b's' ∷ []

abbrev pub current_list_text : CString
current_list_text = b'C' ∷ b'u' ∷ b'r' ∷ b'r' ∷ b'e' ∷ b'n' ∷ b't' ∷ b'L' ∷ b'i' ∷ b's' ∷ b't' ∷ []

abbrev pub browsing_applications_text : CString
browsing_applications_text =
    b'B' ∷ b'r' ∷ b'o' ∷ b'w' ∷ b's' ∷ b'i' ∷ b'n' ∷ b'g' ∷ b'A' ∷ b'p' ∷ b'p' ∷ b'l' ∷ b'i' ∷ b'c'
    ∷ b'a' ∷ b't' ∷ b'i' ∷ b'o' ∷ b'n' ∷ b's' ∷ []

abbrev pub complete_text : CString
complete_text = b'C' ∷ b'o' ∷ b'm' ∷ b'p' ∷ b'l' ∷ b'e' ∷ b't' ∷ b'e' ∷ []

abbrev pub error_text : CString
error_text = b'E' ∷ b'r' ∷ b'r' ∷ b'o' ∷ b'r' ∷ []

abbrev pub install_text : CString
install_text = b'I' ∷ b'n' ∷ b's' ∷ b't' ∷ b'a' ∷ b'l' ∷ b'l' ∷ []

abbrev pub upgrade_text : CString
upgrade_text = b'U' ∷ b'p' ∷ b'g' ∷ b'r' ∷ b'a' ∷ b'd' ∷ b'e' ∷ []

abbrev pub uninstall_text : CString
uninstall_text = b'U' ∷ b'n' ∷ b'i' ∷ b'n' ∷ b's' ∷ b't' ∷ b'a' ∷ b'l' ∷ b'l' ∷ []

abbrev pub lookup_archives_text : CString
lookup_archives_text =
    b'L' ∷ b'o' ∷ b'o' ∷ b'k' ∷ b'u' ∷ b'p' ∷ b'A' ∷ b'r' ∷ b'c' ∷ b'h' ∷ b'i' ∷ b'v' ∷ b'e' ∷ b's'
    ∷ []

abbrev pub archive_text : CString
archive_text = b'A' ∷ b'r' ∷ b'c' ∷ b'h' ∷ b'i' ∷ b'v' ∷ b'e' ∷ []

abbrev pub restore_text : CString
restore_text = b'R' ∷ b'e' ∷ b's' ∷ b't' ∷ b'o' ∷ b'r' ∷ b'e' ∷ []

abbrev pub remove_archive_text : CString
remove_archive_text =
    b'R' ∷ b'e' ∷ b'm' ∷ b'o' ∷ b'v' ∷ b'e' ∷ b'A' ∷ b'r' ∷ b'c' ∷ b'h' ∷ b'i' ∷ b'v' ∷ b'e' ∷ []

abbrev pub skip_uninstall_text : CString
skip_uninstall_text =
    b'S' ∷ b'k' ∷ b'i' ∷ b'p' ∷ b'U' ∷ b'n' ∷ b'i' ∷ b'n' ∷ b's' ∷ b't' ∷ b'a' ∷ b'l' ∷ b'l' ∷ []

abbrev pub application_sinf_text : CString
application_sinf_text =
    b'A' ∷ b'p' ∷ b'p' ∷ b'l' ∷ b'i' ∷ b'c' ∷ b'a' ∷ b't' ∷ b'i' ∷ b'o' ∷ b'n' ∷ b'S' ∷ b'I' ∷ b'N'
    ∷ b'F' ∷ []

abbrev pub itunes_metadata_text : CString
itunes_metadata_text =
    b'i' ∷ b'T' ∷ b'u' ∷ b'n' ∷ b'e' ∷ b's' ∷ b'M' ∷ b'e' ∷ b't' ∷ b'a' ∷ b'd' ∷ b'a' ∷ b't' ∷ b'a'
    ∷ []
