-- ===== src/InstProxy/Options.antt =====
-- src/installation_proxy.c: the options of a command.
use libiphone_debian.Common.Outcome.{Fault, Outcome, done, fault, ◌>>=◌}
use libiphone_debian.Common.{List, Option, ℕ, none, some, if◌then◌else◌, [], ◌∷◌, not, ◌==◌, ◌||◌}
use libiphone_debian.Common.CString.{CString, string_eq}
use libiphone_debian.Plist.{PlistNodes, insert_item, entries}
use libiphone_debian.InstProxy.Strings.{
  skip_uninstall_text, application_sinf_text, itunes_metadata_text,
}

-- An argument behind `client_options`: a string, an int or a plist, where a pointer may be NULL.
pub data OptionArg (P : Type 0) : Type 0 where
  string : Option CString → OptionArg P
  int : ℕ → OptionArg P
  plist : Option P → OptionArg P

-- What the value behind a key is taken for.
pub data ValueKind : Type 0 where
  flag_value : ValueKind
  plist_value : ValueKind
  string_value : ValueKind

abbrev pub kind_of : CString → ValueKind
kind_of k =
    if string_eq k skip_uninstall_text
    then ValueKind.flag_value
    else if string_eq k application_sinf_text || string_eq k itunes_metadata_text
    then ValueKind.plist_value
    else ValueKind.string_value

module _ {P : Type 0} (nodes : PlistNodes P) where
  pub instproxy_client_options_new : P
  instproxy_client_options_new = nodes.new_dict []

  -- A value as it was read; `none` for a NULL pointer, which ends the loop. An argument of another
  -- type, or none, is a read of something else.
  abbrev value_of : ValueKind → OptionArg P → Outcome (Option P)
  value_of ValueKind.flag_value (OptionArg.int n) = done (some (nodes.new_bool (not (n == 0))))
  value_of ValueKind.plist_value (OptionArg.plist p) = done p
  value_of ValueKind.string_value (OptionArg.string none) = done none
  value_of ValueKind.string_value (OptionArg.string (some s)) = done (some (nodes.new_string s))
  value_of _ arg = fault Fault.over_read

  abbrev with_value :
      (List (CString × P) → Outcome (List (CString × P)))
      → CString
      → List (CString × P)
      → Option P
      → Outcome (List (CString × P))
  with_value rest key es none = done es
  with_value rest key es (some p) = rest (insert_item key p es)

  -- The loop: a key, its value, and the rest. It ends at a NULL where a key or a pointer is read.
  unfoldable pub add_options :
      List (OptionArg P) → List (CString × P) → Outcome (List (CString × P))
  add_options (OptionArg.string none ∷ args) es = done es
  add_options (OptionArg.string (some key) ∷ (arg ∷ args)) es =
      value_of (kind_of key) arg >>= λ value. with_value (add_options args) key es value
  add_options args es = fault Fault.over_read

  abbrev some_dict : List (CString × P) → Option P
  some_dict es = some (nodes.new_dict es)

  -- The dictionary `client_options` behind the call.
  pub instproxy_client_options_add : Option P → List (OptionArg P) → Outcome (Option P)
  instproxy_client_options_add none args = done none
  instproxy_client_options_add (some options) args =
      add_options args (entries (nodes.view options)) >>= λ es. done (some_dict es)
