-- ===== src/FileRelay.antt =====
-- src/file_relay.c and .h, include/libimobiledevice/file_relay.h: the client, and the request of sources.
pub mod Strings
pub mod Answer
pub mod Tests
use libiphone_debian.Common.{
  false, true, Bool, List, Option, ℕ, none, some, if◌then◌else◌, is_some, [], ◌∷◌, ◌==◌,
}
use libiphone_debian.Common.CString.{CString, string_eq}
use libiphone_debian.Common.Outcome.{Outcome, done, ◌>>=◌}
use libiphone_debian.Channel.{Channel}
use libiphone_debian.Idevice.{Connection, Device, Usbmuxd, Gnutls}
use libiphone_debian.Plist.{Node, PlistNodes, insert_item, get_item, string_of}
use libiphone_debian.PropertyList.{Libplist, PlistClient, PlistServiceError}
use libiphone_debian.PropertyList.Client.{
  property_list_service_client_new, property_list_service_client_free,
}
use libiphone_debian.PropertyList.Send.{property_list_service_send_xml_plist}
use libiphone_debian.PropertyList.Receive.{property_list_service_receive_plist_with_timeout}
use libiphone_debian.DeviceLink.{went_well}
use libiphone_debian.FileRelay.Strings.{
  sources_text, error_text, invalid_source_text, staging_empty_text, status_text, acknowledged_text,
}

-- file_relay_error_t
pub data FileRelayError : Type 0 where
  success : FileRelayError
  invalid_arg : FileRelayError
  plist_error : FileRelayError
  mux_error : FileRelayError
  invalid_source : FileRelayError
  staging_empty : FileRelayError
  unknown_error : FileRelayError

pub record FileRelayClient : Type 0 where
  pub parent : Option PlistClient

-- What the client calls of the property list service to make a request.
pub record RelayPort (P W : Type 0) : Type 0 where
  pub send_xml : Option PlistClient → Option P → W → PlistServiceError × W
  pub receive_with_timeout : Option PlistClient → ℕ → W → Outcome (PlistServiceError × Option P × W)

module _ {W : Type 0} (mux : Usbmuxd W) (tls : Gnutls W) where
  abbrev made :
      PlistServiceError × Option PlistClient × W → FileRelayError × Option FileRelayClient × W
  made (e, parent, w) =
      if went_well e
      then (FileRelayError.success, some (record { parent = parent }), w)
      else (FileRelayError.mux_error, none, w)

  -- `client` is `none` for a NULL pointer, and `some none` for a pointer to NULL.
  pub file_relay_client_new :
      Option Device
      → ℕ
      → Option (Option FileRelayClient)
      → W
      → FileRelayError × Option FileRelayClient × W
  file_relay_client_new (some device) port (some none) w =
      if port == 0
      then (FileRelayError.invalid_arg, none, w)
      else made (property_list_service_client_new mux tls (some device) port (some none) w)
  file_relay_client_new device port (some (some client)) w =
      (FileRelayError.invalid_arg, some client, w)
  file_relay_client_new device port client w = (FileRelayError.invalid_arg, none, w)

  pub file_relay_client_free : Option FileRelayClient → W → FileRelayError × W
  file_relay_client_free none w = (FileRelayError.invalid_arg, w)
  file_relay_client_free (some client) w =
      let (e, w') = property_list_service_client_free mux tls client.parent w in
      (if went_well e then FileRelayError.success else FileRelayError.unknown_error, w')

-- The error that an answer names.
abbrev named_error : Option CString → FileRelayError
named_error none = FileRelayError.unknown_error
named_error (some errmsg) =
    if string_eq errmsg invalid_source_text
    then FileRelayError.invalid_source
    else if string_eq errmsg staging_empty_text
    then FileRelayError.staging_empty
    else FileRelayError.unknown_error

abbrev acknowledged : Option CString → FileRelayError
acknowledged none = FileRelayError.unknown_error
acknowledged (some ack) =
    if string_eq ack acknowledged_text then FileRelayError.success else FileRelayError.unknown_error

module _ {P W : Type 0} (nodes : PlistNodes P) (port : RelayPort P W) where
  abbrev strings : List CString → List P
  strings [] = []
  strings (source ∷ sources) = nodes.new_string source ∷ strings sources

  abbrev request_dict : List CString → P
  request_dict sources =
      nodes.new_dict (insert_item sources_text (nodes.new_array (strings sources)) [])

  abbrev status_error : Option P → FileRelayError
  status_error none = FileRelayError.plist_error
  status_error (some status) = acknowledged (string_of (nodes.view status))

  abbrev answer_error : Option P → Option P → FileRelayError
  answer_error (some e) status = named_error (string_of (nodes.view e))
  answer_error none status = status_error status

  unfoldable pub judge_answer : P → FileRelayError
  judge_answer dict =
      answer_error (get_item nodes dict error_text) (get_item nodes dict status_text)

  -- The connection is handed out if the answer is an acknowledgement.
  abbrev handed_out : Option Connection → FileRelayError → FileRelayError × Option Connection
  handed_out connection FileRelayError.success = (FileRelayError.success, connection)
  handed_out connection e = (e, none)

  abbrev answered :
      PlistClient → PlistServiceError × Option P × W → FileRelayError × Option Connection × W
  answered parent (e, none, w) =
      (if went_well e then FileRelayError.plist_error else FileRelayError.mux_error, none, w)
  answered parent (e, some dict, w) =
      let (err, connection) = handed_out parent.connection (judge_answer dict) in
      if went_well e then (err, connection, w) else (FileRelayError.mux_error, none, w)

  abbrev requested :
      PlistClient → PlistServiceError × W → Outcome (FileRelayError × Option Connection × W)
  requested parent (e, w) =
      let answer =
        port.receive_with_timeout (some parent) 60000 w >>= λ x. done (answered parent x) in
      if went_well e then answer else done (FileRelayError.mux_error, none, w)

  abbrev request_checked :
      Option PlistClient
      → List CString
      → Option Connection
      → W
      → Outcome (FileRelayError × Option Connection × W)
  request_checked (some parent) (source ∷ sources) before w =
      requested parent (port.send_xml (some parent) (some (request_dict (source ∷ sources))) w)
  request_checked parent sources before w = done (FileRelayError.invalid_arg, before, w)

  -- `sources` ends before its NULL; `before` and the second result are what *connection holds.
  unfoldable pub file_relay_request_sources :
      Option FileRelayClient
      → Option (List CString)
      → Option Connection
      → W
      → Outcome (FileRelayError × Option Connection × W)
  file_relay_request_sources (some client) (some sources) before w =
      request_checked client.parent sources before w
  file_relay_request_sources client sources before w = done (FileRelayError.invalid_arg, before, w)
