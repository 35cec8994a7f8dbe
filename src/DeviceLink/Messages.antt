-- ===== src/DeviceLink/Messages.antt =====
-- src/device_link_service.c: the strings of the protocol, and device_link_service_get_message.
use libiphone_debian.Common.{
  ap, ◌∙◌, ◌≡◌, take, length, [], false, ltb, none, some, Bool, List, Option, if◌then◌else◌, ◌∷◌,
}
use libiphone_debian.Plist.{Node, PlistNodes, items}
use libiphone_debian.Common.CString.{CString, string_eq}

abbrev pub version_exchange_message : CString
version_exchange_message =
    b'D' ∷ b'L' ∷ b'M' ∷ b'e' ∷ b's' ∷ b's' ∷ b'a' ∷ b'g' ∷ b'e' ∷ b'V' ∷ b'e' ∷ b'r' ∷ b's' ∷ b'i'
    ∷ b'o' ∷ b'n' ∷ b'E' ∷ b'x' ∷ b'c' ∷ b'h' ∷ b'a' ∷ b'n' ∷ b'g' ∷ b'e' ∷ []

abbrev pub versions_ok : CString
versions_ok = b'D' ∷ b'L' ∷ b'V' ∷ b'e' ∷ b'r' ∷ b's' ∷ b'i' ∷ b'o' ∷ b'n' ∷ b's' ∷ b'O' ∷ b'k' ∷ []

abbrev pub device_ready : CString
device_ready =
    b'D' ∷ b'L' ∷ b'M' ∷ b'e' ∷ b's' ∷ b's' ∷ b'a' ∷ b'g' ∷ b'e' ∷ b'D' ∷ b'e' ∷ b'v' ∷ b'i' ∷ b'c'
    ∷ b'e' ∷ b'R' ∷ b'e' ∷ b'a' ∷ b'd' ∷ b'y' ∷ []

abbrev pub disconnect_message : CString
disconnect_message =
    b'D' ∷ b'L' ∷ b'M' ∷ b'e' ∷ b's' ∷ b's' ∷ b'a' ∷ b'g' ∷ b'e' ∷ b'D' ∷ b'i' ∷ b's' ∷ b'c' ∷ b'o'
    ∷ b'n' ∷ b'n' ∷ b'e' ∷ b'c' ∷ b't' ∷ []

abbrev pub ping_message : CString
ping_message =
    b'D' ∷ b'L' ∷ b'M' ∷ b'e' ∷ b's' ∷ b's' ∷ b'a' ∷ b'g' ∷ b'e' ∷ b'P' ∷ b'i' ∷ b'n' ∷ b'g' ∷ []

abbrev pub process_message : CString
process_message =
    b'D' ∷ b'L' ∷ b'M' ∷ b'e' ∷ b's' ∷ b's' ∷ b'a' ∷ b'g' ∷ b'e' ∷ b'P' ∷ b'r' ∷ b'o' ∷ b'c' ∷ b'e'
    ∷ b's' ∷ b's' ∷ b'M' ∷ b'e' ∷ b's' ∷ b's' ∷ b'a' ∷ b'g' ∷ b'e' ∷ []

abbrev pub empty_parameter : CString
empty_parameter =
    b'_' ∷ b'_' ∷ b'_' ∷ b'E' ∷ b'm' ∷ b'p' ∷ b't' ∷ b'y' ∷ b'P' ∷ b'a' ∷ b'r' ∷ b'a' ∷ b'm' ∷ b'e'
    ∷ b't' ∷ b'e' ∷ b'r' ∷ b'S' ∷ b't' ∷ b'r' ∷ b'i' ∷ b'n' ∷ b'g' ∷ b'_' ∷ b'_' ∷ b'_' ∷ []

-- A command is a string of nine characters or more that starts with "DL".
abbrev pub command_of : CString → Option CString
command_of s =
    if ltb (length s) 9
    then none
    else if string_eq (take 2 s) (b'D' ∷ b'L' ∷ [])
    then some s
    else none

-- strcmp(msg, name) == 0 for a msg that is not NULL
abbrev pub is_message : Option CString → CString → Bool
is_message none name = false
is_message (some s) name = string_eq s name

abbrev pub name_of : {P : Type 0} → Node P → Option CString
name_of (Node.string s) = command_of s
name_of _ = none

module _ {P : Type 0} (nodes : PlistNodes P) where
  abbrev pub first_command : List P → Option CString
  first_command [] = none
  first_command (cmd ∷ ps) = name_of (nodes.view cmd)

  -- The message, or `none` where the plist, if there is one, is no DL* message.
  unfoldable pub device_link_service_get_message : Option P → Option CString
  device_link_service_get_message none = none
  device_link_service_get_message (some dl_msg) = first_command (items (nodes.view dl_msg))

  -- An array whose first node is a string has the command of that string.
  pub get_message_array :
      (p cmd : P) (rest : List P) (name : CString)
      → nodes.view p ≡ Node.array (cmd ∷ rest)
      → nodes.view cmd ≡ Node.string name
      → device_link_service_get_message (some p) ≡ command_of name
  unfolding device_link_service_get_message
  get_message_array p cmd rest name e f = ap (λ n. first_command (items n)) e ∙ ap name_of f
