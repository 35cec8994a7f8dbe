-- ===== src/HouseArrest/Strings.antt =====
-- src/house_arrest.c: the strings of the protocol.
use libiphone_debian.Common.{[], ◌∷◌}
use libiphone_debian.Common.CString.{CString}

abbrev pub command_text : CString
command_text = b'C' ∷ b'o' ∷ b'm' ∷ b'm' ∷ b'a' ∷ b'n' ∷ b'd' ∷ []

abbrev pub identifier_text : CString
identifier_text = b'I' ∷ b'd' ∷ b'e' ∷ b'n' ∷ b't' ∷ b'i' ∷ b'f' ∷ b'i' ∷ b'e' ∷ b'r' ∷ []
