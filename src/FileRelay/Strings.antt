-- ===== src/FileRelay/Strings.antt =====
-- src/file_relay.c: the strings of the protocol.
use libiphone_debian.Common.{[], ◌∷◌}
use libiphone_debian.Common.CString.{CString}

abbrev pub sources_text : CString
sources_text = b'S' ∷ b'o' ∷ b'u' ∷ b'r' ∷ b'c' ∷ b'e' ∷ b's' ∷ []

abbrev pub error_text : CString
error_text = b'E' ∷ b'r' ∷ b'r' ∷ b'o' ∷ b'r' ∷ []

abbrev pub invalid_source_text : CString
invalid_source_text =
    b'I' ∷ b'n' ∷ b'v' ∷ b'a' ∷ b'l' ∷ b'i' ∷ b'd' ∷ b'S' ∷ b'o' ∷ b'u' ∷ b'r' ∷ b'c' ∷ b'e' ∷ []

abbrev pub staging_empty_text : CString
staging_empty_text =
    b'S' ∷ b't' ∷ b'a' ∷ b'g' ∷ b'i' ∷ b'n' ∷ b'g' ∷ b'E' ∷ b'm' ∷ b'p' ∷ b't' ∷ b'y' ∷ []

abbrev pub status_text : CString
status_text = b'S' ∷ b't' ∷ b'a' ∷ b't' ∷ b'u' ∷ b's' ∷ []

abbrev pub acknowledged_text : CString
acknowledged_text =
    b'A' ∷ b'c' ∷ b'k' ∷ b'n' ∷ b'o' ∷ b'w' ∷ b'l' ∷ b'e' ∷ b'd' ∷ b'g' ∷ b'e' ∷ b'd' ∷ []
