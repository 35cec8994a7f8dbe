-- ===== src/DeviceLink/Service.antt =====
-- src/device_link_service.c: the requests, over the property list service and libplist.
pub mod Process
use libiphone_debian.Common.{
  length, false, none, [], not, some, true, Bool, Option, if◌then◌else◌, is_some, ◌&&◌, ◌==◌, ◌∷◌,
}
use libiphone_debian.Plist.{Node, PlistNodes, items}
use libiphone_debian.DeviceLink.Messages.{
  device_link_service_get_message, disconnect_message, empty_parameter, is_message, ping_message,
  process_message,
}
use libiphone_debian.Common.Outcome.{done, Outcome, ◌>>=◌}
use libiphone_debian.DeviceLink.{DeviceLinkClient, DeviceLinkError, PlistPort, went_well}
use libiphone_debian.PropertyList.{PlistServiceError, invalid_arg, mux_error, plist_error}
use libiphone_debian.Common.CString.{CString}

module _ {P W : Type 0} (nodes : PlistNodes P) (port : PlistPort P W) where
  -- A send whose failure is a communication error.
  abbrev pub sent_or_mux : PlistServiceError × W → DeviceLinkError × W
  sent_or_mux (e, w) =
      (if went_well e then DeviceLinkError.success else DeviceLinkError.mux_error, w)

  -- An array of a command and one more node.
  abbrev pub message_of : CString → P → P
  message_of name p = nodes.new_array (nodes.new_string name ∷ p ∷ [])

  pub device_link_service_disconnect :
      Option DeviceLinkClient → Option CString → W → DeviceLinkError × W
  device_link_service_disconnect none message w = (DeviceLinkError.invalid_arg, w)
  device_link_service_disconnect (some client) none w = sent_or_mux (
      port.send client.parent
        (some (message_of disconnect_message (nodes.new_string empty_parameter))) w)
  device_link_service_disconnect (some client) (some message) w =
      sent_or_mux (
        port.send client.parent (some (message_of disconnect_message (nodes.new_string message))) w)

  unfoldable pub device_link_service_send_ping :
      Option DeviceLinkClient → Option CString → W → DeviceLinkError × W
  device_link_service_send_ping (some client) (some message) w =
      if is_some client.parent
      then sent_or_mux
          (port.send client.parent (some (message_of ping_message (nodes.new_string message))) w)
      else (DeviceLinkError.invalid_arg, w)
  device_link_service_send_ping client message w = (DeviceLinkError.invalid_arg, w)

  abbrev is_dict : Node P → Bool
  is_dict (Node.dict es) = true
  is_dict _ = false

  unfoldable pub device_link_service_send_process_message :
      Option DeviceLinkClient → Option P → W → DeviceLinkError × W
  device_link_service_send_process_message (some client) (some message) w =
      if is_some client.parent && is_dict (nodes.view message)
      then sent_or_mux (port.send client.parent (some (message_of process_message message)) w)
      else (DeviceLinkError.invalid_arg, w)
  device_link_service_send_process_message client message w = (DeviceLinkError.invalid_arg, w)

  abbrev message_or_error :
      PlistServiceError × Option P × W → DeviceLinkError × Option P × Option CString × W
  message_or_error (e, p, w) =
      let msg = device_link_service_get_message nodes p in
      if not (went_well e)
      then (DeviceLinkError.mux_error, p, none, w)
      else if is_some msg
      then (DeviceLinkError.success, p, msg, w)
      else (DeviceLinkError.plist_error, p, none, w)

  -- `wanted` says whether msg_plist is set; the results are what *msg_plist and *dlmessage hold.
  pub device_link_service_receive_message :
      Option DeviceLinkClient → Bool → W → Outcome (DeviceLinkError × Option P × Option CString × W)
  device_link_service_receive_message none wanted w =
      done (DeviceLinkError.invalid_arg, none, none, w)
  device_link_service_receive_message (some client) wanted w =
      let answer = port.receive client.parent (some none) w >>= λ x. done (message_or_error x) in
      if is_some client.parent && wanted
      then answer
      else done (DeviceLinkError.invalid_arg, none, none, w)

  -- The message inside of DLMessageProcessMessage.
  abbrev pub processed : PlistServiceError × Option P × W → DeviceLinkError × Option P × W
  processed (e, none, w) =
      (if went_well e then DeviceLinkError.plist_error else DeviceLinkError.mux_error, none, w)
  processed (e, some pmsg, w) =
      let msg = device_link_service_get_message nodes (some pmsg) in
      if not (went_well e)
      then (DeviceLinkError.mux_error, none, w)
      else if is_message msg process_message
      then elim (items (nodes.view pmsg)) [
        | [] ↦ (DeviceLinkError.plist_error, none, w)
        | cmd ∷ rest ↦ elim rest [
          | [] ↦ (DeviceLinkError.plist_error, none, w)
          | message ∷ more ↦
              if length more == 0
              then (DeviceLinkError.success, some message, w)
              else (DeviceLinkError.plist_error, none, w)
        ]
      ]
      else (DeviceLinkError.plist_error, none, w)

  unfoldable pub device_link_service_receive_process_message :
      Option DeviceLinkClient → Bool → W → Outcome (DeviceLinkError × Option P × W)
  device_link_service_receive_process_message none wanted w =
      done (DeviceLinkError.invalid_arg, none, w)
  device_link_service_receive_process_message (some client) wanted w =
      let answer = port.receive client.parent (some none) w >>= λ x. done (processed x) in
      if is_some client.parent && wanted
      then answer
      else done (DeviceLinkError.invalid_arg, none, w)

  unfoldable pub device_link_service_send :
      Option DeviceLinkClient → Option P → W → DeviceLinkError × W
  device_link_service_send (some client) (some plist) w =
      sent_or_mux (port.send client.parent (some plist) w)
  device_link_service_send client plist w = (DeviceLinkError.invalid_arg, w)

  abbrev received_or_mux : PlistServiceError × Option P × W → DeviceLinkError × Option P × W
  received_or_mux (e, p, w) =
      (if went_well e then DeviceLinkError.success else DeviceLinkError.mux_error, p, w)

  unfoldable pub device_link_service_receive :
      Option DeviceLinkClient → Option (Option P) → W → Outcome (DeviceLinkError × Option P × W)
  device_link_service_receive (some client) (some none) w =
      port.receive client.parent (some none) w >>= λ x. done (received_or_mux x)
  device_link_service_receive client none w = done (DeviceLinkError.invalid_arg, none, w)
  device_link_service_receive client (some before) w = done (DeviceLinkError.invalid_arg, before, w)
