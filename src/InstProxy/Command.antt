-- ===== src/InstProxy/Command.antt =====
-- src/installation_proxy.c: instproxy_send_command.
use libiphone_debian.PropertyList.{PlistServiceError}
use libiphone_debian.Common.{
  false, true, Bool, List, Option, none, some, if◌then◌else◌, [], ltb, length,
}
use libiphone_debian.Common.CString.{CString}
use libiphone_debian.Plist.{Node, PlistNodes, insert_item, entries}
use libiphone_debian.InstProxy.{InstproxyError, InstproxyClient, InstproxyPort, instproxy_error}
use libiphone_debian.InstProxy.Strings.{
  application_identifier_text, client_options_text, command_text, package_path_text,
}

-- The options are a dictionary, if there are any.
abbrev pub are_options : {P : Type 0} → PlistNodes P → Option P → Bool
are_options nodes none = true
are_options nodes (some p) = elim (nodes.view p) [ Node.dict es ↦ true | _ ↦ false ]

module _ {P : Type 0} (nodes : PlistNodes P) where
  abbrev insert_given : CString → Option CString → List (CString × P) → List (CString × P)
  insert_given key none es = es
  insert_given key (some s) es = insert_item key (nodes.new_string s) es

  -- Options without an entry are left out.
  abbrev insert_options : Option P → List (CString × P) → List (CString × P)
  insert_options none es = es
  insert_options (some options) es =
      if ltb 0 (length (entries (nodes.view options)))
      then insert_item client_options_text options es
      else es

  abbrev pub command_dict : CString → Option P → Option CString → Option CString → P
  command_dict command options appid package_path = nodes.new_dict (
      insert_given package_path_text package_path (
        insert_item command_text (nodes.new_string command)
          (insert_options options (insert_given application_identifier_text appid []))))

module _ {P W : Type 0} (nodes : PlistNodes P) (port : InstproxyPort P W) where
  abbrev sent : PlistServiceError × W → InstproxyError × W
  sent (e, w) = (instproxy_error e, w)

  unfoldable pub instproxy_send_command :
      Option InstproxyClient
      → Option CString
      → Option P
      → Option CString
      → Option CString
      → W
      → InstproxyError × W
  instproxy_send_command (some client) (some command) options appid package_path w =
      if are_options nodes options
      then sent (
          port.send_xml client.parent (some (command_dict nodes command options appid package_path))
            w)
      else (InstproxyError.invalid_arg, w)
  instproxy_send_command client command options appid package_path w =
      (InstproxyError.invalid_arg, w)
