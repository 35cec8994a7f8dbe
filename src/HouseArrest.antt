-- ===== src/HouseArrest.antt =====
-- src/house_arrest.c and .h, include/libimobiledevice/house_arrest.h: the client and its mode, its requests,
-- and the AFC client that takes over its connection.
pub mod Strings
pub mod Mode
pub mod Tests
use libiphone_debian.Common.{
  false, true, Bool, List, Option, ℕ, none, some, if◌then◌else◌, is_some, [], ◌∷◌, ◌==◌,
}
use libiphone_debian.Common.CString.{CString}
use libiphone_debian.Common.Outcome.{Outcome, done, fault, null_deref, ◌>>=◌}
use libiphone_debian.Channel.{Channel}
use libiphone_debian.Idevice.{Connection, Device, Usbmuxd, Gnutls}
use libiphone_debian.Plist.{Node, PlistNodes, insert_item}
use libiphone_debian.PropertyList.{Libplist, PlistClient, PlistServiceError}
use libiphone_debian.PropertyList.Client.{
  property_list_service_client_new, property_list_service_client_free,
}
use libiphone_debian.PropertyList.Send.{property_list_service_send_xml_plist}
use libiphone_debian.PropertyList.Receive.{property_list_service_receive_plist}
use libiphone_debian.DeviceLink.{PlistPort}
use libiphone_debian.Afc.Error
use libiphone_debian.Afc.Packet.{AfcClient}
use libiphone_debian.Afc.Session.{afc_client_new_from_connection}
use libiphone_debian.Afc.Client.{Connected}
use libiphone_debian.HouseArrest.Strings.{command_text, identifier_text}

-- house_arrest_error_t
pub data HouseArrestError : Type 0 where
  success : HouseArrestError
  invalid_arg : HouseArrestError
  plist_error : HouseArrestError
  conn_failed : HouseArrestError
  invalid_mode : HouseArrestError
  unknown_error : HouseArrestError

-- err == HOUSE_ARREST_E_SUCCESS
abbrev pub is_success : HouseArrestError → Bool
is_success HouseArrestError.success = true
is_success _ = false

unfoldable pub house_arrest_error : PlistServiceError → HouseArrestError
house_arrest_error PlistServiceError.success = HouseArrestError.success
house_arrest_error PlistServiceError.invalid_arg = HouseArrestError.invalid_arg
house_arrest_error PlistServiceError.plist_error = HouseArrestError.plist_error
house_arrest_error PlistServiceError.mux_error = HouseArrestError.conn_failed
house_arrest_error _ = HouseArrestError.unknown_error

pub data ClientMode : Type 0 where
  normal : ClientMode
  afc : ClientMode

abbrev is_normal : ClientMode → Bool
is_normal ClientMode.normal = true
is_normal ClientMode.afc = false

pub record HouseArrestClient : Type 0 where
  pub parent : Option PlistClient
  pub mode : ClientMode

-- The property list service as the port of the client, which sends XML.
pub xml_port : {P W : Type 0} → Libplist P → (Connection → Channel W) → (ℕ → List ℕ) → PlistPort P W
xml_port lib ch fresh = record {
  send = λ client plist w. property_list_service_send_xml_plist lib ch client plist w;
  receive = λ client plist w. property_list_service_receive_plist lib ch fresh client plist w;
}

module _ {W : Type 0} (mux : Usbmuxd W) (tls : Gnutls W) where
  -- `given` says whether `client` is set; the new client is stored without a test of that.
  abbrev made :
      Bool
      → PlistServiceError × Option PlistClient × W
      → Outcome (HouseArrestError × Option HouseArrestClient × W)
  made given (e, parent, w) =
      let client : HouseArrestClient = record { parent = parent; mode = ClientMode.normal } in
      if is_success (house_arrest_error e)
      then (if given then done (HouseArrestError.success, some client, w) else fault null_deref)
      else done (house_arrest_error e, none, w)

  pub house_arrest_client_new :
      Option Device → ℕ → Bool → W → Outcome (HouseArrestError × Option HouseArrestClient × W)
  house_arrest_client_new none port given w = done (HouseArrestError.invalid_arg, none, w)
  house_arrest_client_new (some device) port given w =
      made given (property_list_service_client_new mux tls (some device) port (some none) w)

  abbrev is_connected : Option PlistClient → Bool
  is_connected none = false
  is_connected (some parent) = is_some parent.connection

  -- The result of property_list_service_client_free is dropped.
  unfoldable pub house_arrest_client_free : Option HouseArrestClient → W → HouseArrestError × W
  house_arrest_client_free none w = (HouseArrestError.invalid_arg, w)
  house_arrest_client_free (some client) w =
      if is_connected client.parent
      then (HouseArrestError.success, (property_list_service_client_free mux tls client.parent w).1)
      else (HouseArrestError.success, w)

module _ {P W : Type 0} (nodes : PlistNodes P) (port : PlistPort P W) where
  abbrev pub is_dict : Node P → Bool
  is_dict (Node.dict es) = true
  is_dict _ = false

  abbrev sent : PlistServiceError × W → HouseArrestError × W
  sent (e, w) = (house_arrest_error e, w)

  abbrev send_checked : HouseArrestClient → P → W → HouseArrestError × W
  send_checked client dict w =
      if is_dict (nodes.view dict)
      then (if is_normal client.mode
          then sent (port.send client.parent (some dict) w)
          else (HouseArrestError.invalid_mode, w))
      else (HouseArrestError.plist_error, w)

  unfoldable pub house_arrest_send_request :
      Option HouseArrestClient → Option P → W → HouseArrestError × W
  house_arrest_send_request (some client) (some dict) w =
      if is_some client.parent
      then send_checked client dict w
      else (HouseArrestError.invalid_arg, w)
  house_arrest_send_request client dict w = (HouseArrestError.invalid_arg, w)

  abbrev command_dict : CString → CString → P
  command_dict command appid = nodes.new_dict (
      insert_item identifier_text (nodes.new_string appid)
        (insert_item command_text (nodes.new_string command) []))

  unfoldable pub house_arrest_send_command :
      Option HouseArrestClient → Option CString → Option CString → W → HouseArrestError × W
  house_arrest_send_command (some client) (some command) (some appid) w =
      if is_some client.parent
      then (if is_normal client.mode
          then house_arrest_send_request (some client) (some (command_dict command appid)) w
          else (HouseArrestError.invalid_mode, w))
      else (HouseArrestError.invalid_arg, w)
  house_arrest_send_command client command appid w = (HouseArrestError.invalid_arg, w)

  abbrev pub held : Option (Option P) → Option P
  held none = none
  held (some before) = before

  -- After a failure *dict is read, and freed and set to NULL if it holds a plist.
  abbrev result_of :
      Option (Option P)
      → PlistServiceError × Option P × W
      → Outcome (HouseArrestError × Option P × W)
  result_of none (e, p, w) =
      if is_success (house_arrest_error e)
      then done (HouseArrestError.success, none, w)
      else fault null_deref
  result_of (some before) (e, p, w) =
      if is_success (house_arrest_error e)
      then done (HouseArrestError.success, p, w)
      else done (house_arrest_error e, none, w)

  abbrev result_checked :
      HouseArrestClient → Option (Option P) → W → Outcome (HouseArrestError × Option P × W)
  result_checked client dict w =
      let result = port.receive client.parent dict w >>= λ x. result_of dict x in
      if is_normal client.mode then result else done (HouseArrestError.invalid_mode, held dict, w)

  -- `dict` is `none` for a NULL pointer; the second result is what *dict holds.
  unfoldable pub house_arrest_get_result :
      Option HouseArrestClient → Option (Option P) → W → Outcome (HouseArrestError × Option P × W)
  house_arrest_get_result none dict w = done (HouseArrestError.invalid_arg, held dict, w)
  house_arrest_get_result (some client) dict w =
      let result = result_checked client dict w in
      if is_some client.parent then result else done (HouseArrestError.invalid_arg, held dict, w)

-- The AFC client on the connection of the house_arrest client.
abbrev on_connection : Option AfcClient → Option Connection → Option Connected
on_connection none connection = none
on_connection (some c) connection = some (c, connection)

abbrev taken_over :
    HouseArrestClient → PlistClient → ℕ × Option Connected × Option HouseArrestClient
taken_over client parent =
    let (ret, new_client) = afc_client_new_from_connection (is_some parent.connection) in
    if ret == 0
    then (
      ret,
      on_connection new_client parent.connection,
      some (record client { mode = ClientMode.afc }),
    )
    else (ret, none, some client)

abbrev taken_from :
    HouseArrestClient → Option PlistClient → ℕ × Option Connected × Option HouseArrestClient
taken_from client none = (Error.invalid_arg, none, some client)
taken_from client (some parent) =
    if is_normal client.mode
    then taken_over client parent
    else (Error.invalid_arg, none, some client)

-- The last result is the client that `client` points to.
unfoldable pub afc_client_new_from_house_arrest_client :
    Option HouseArrestClient → ℕ × Option Connected × Option HouseArrestClient
afc_client_new_from_house_arrest_client none = (Error.invalid_arg, none, none)
afc_client_new_from_house_arrest_client (some client) = taken_from client client.parent
