-- ===== src/DeviceLink/Service/Process.antt =====
-- src/device_link_service.c: DLMessageProcessMessage on both sides.
use libiphone_debian.Common.{
  ap, arith, none, true, List, Option, is_some, ◌∙◌, refl, [], some, ◌∷◌, ◌≡◌,
}
use libiphone_debian.Common.Outcome.{done}
use libiphone_debian.Plist.{IsBuilt, PlistNodes}
use libiphone_debian.PropertyList.{PlistClient, PlistServiceError}
use libiphone_debian.DeviceLink.{DeviceLinkClient, went_well, DeviceLinkError, PlistPort}
use libiphone_debian.DeviceLink.Service.{
  device_link_service_receive_process_message, device_link_service_send_process_message, processed,
  message_of,
}
use libiphone_debian.DeviceLink.Messages.{
  get_message_array, device_link_service_get_message, process_message,
}
use libiphone_debian.Common.CString.{nul_free→IsCString, IsCString, string_eq}

module _ {P V W : Type 0} (nodes : PlistNodes P) (built : IsBuilt nodes) (out : PlistPort P V)
    (inp : PlistPort P W) where
  process_name : IsCString process_message
  process_name = nul_free→IsCString process_message refl

  pub processed-message :
      (message : P) (w : W)
      → processed nodes inp
          (PlistServiceError.success, some (message_of nodes inp process_message message), w)
        ≡ (DeviceLinkError.success, some message, w)
  unfolding device_link_service_get_message string_eq
  processed-message message w =
      let a = built.view_array (nodes.new_string process_message ∷ message ∷ []) in
      let s = built.view_string process_message process_name in
      let m = get_message_array nodes _ _ _ _ a s in rw (m, a) refl

  sent_message :
      (sender : DeviceLinkClient) (log : V → List P) (message : P) (v v1 : V)
      → ((c : Option PlistClient) (x : P) (u : V)
          → went_well (out.send c (some x) u).0 ≡ true
          → log (out.send c (some x) u).1 ≡ x ∷ log u)
      → device_link_service_send_process_message nodes out (some sender) (some message) v
        ≡ (DeviceLinkError.success, v1)
      → log v1 ≡ message_of nodes out process_message message ∷ log v
  unfolding device_link_service_send_process_message
  sent_message sender log message v v1 logs sent =
      let l = logs sender.parent (message_of nodes out process_message message) v in
      ground (arith, l, sent)

  -- If libplist takes apart what it has built and the sender's port logs each plist that it sends
  -- with success, then a message that device_link_service_send_process_message has sent with
  -- success is what device_link_service_receive_process_message gives, with success, where the
  -- receiver has a parent and receives the plist that was logged.
  pub receive_process_message-send_process_message :
      (sender receiver : DeviceLinkClient) (log : V → List P) (message q : P) (v v1 : V) (w w1 : W)
      → ((c : Option PlistClient) (x : P) (u : V)
          → went_well (out.send c (some x) u).0 ≡ true
          → log (out.send c (some x) u).1 ≡ x ∷ log u)
      → device_link_service_send_process_message nodes out (some sender) (some message) v
        ≡ (DeviceLinkError.success, v1)
      → log v1 ≡ q ∷ log v
      → is_some receiver.parent ≡ true
      → inp.receive receiver.parent (some none) w ≡ done (PlistServiceError.success, some q, w1)
      → device_link_service_receive_process_message nodes inp (some receiver) true w
        ≡ done (DeviceLinkError.success, some message, w1)
  unfolding device_link_service_receive_process_message
  receive_process_message-send_process_message sender receiver log message q v v1 w w1 logs sent
        last_one set received =
      let same = sent_message sender log message v v1 logs sent in
      let is_q : q ≡ message_of nodes inp process_message message = cc in
      rw (set, received)
        (ap done (
          ap (λ x. processed nodes inp (PlistServiceError.success, some x, w1)) is_q
          ∙ processed-message message w1))
