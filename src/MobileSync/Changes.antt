-- ===== src/MobileSync/Changes.antt =====
-- src/mobilesync.c: the records and the changes that a session transfers.
use libiphone_debian.Common.{
  none, some, true, false, Bool, List, Option, if◌then◌else◌, [], ◌∷◌, not,
}
use libiphone_debian.Common.CString.{CString}
use libiphone_debian.Common.Outcome.{Outcome, done, ◌>>=◌}
use libiphone_debian.Plist.{Node, PlistNodes}
use libiphone_debian.DeviceLink.{PlistPort}
use libiphone_debian.DeviceLink.Messages.{empty_parameter}
use libiphone_debian.DeviceLink.Service.{device_link_service_send_ping}
use libiphone_debian.MobileSync.{
  MobilesyncError, MobilesyncClient, SyncDirection, mobilesync_error, is_success,
}
use libiphone_debian.MobileSync.Transfer.{
  item, message_items, respond, unless_cancelled, expect, exchange_message, mobilesync_send,
  mobilesync_receive,
}
use libiphone_debian.MobileSync.Session.{class_message}
use libiphone_debian.MobileSync.Strings.{
  get_all_records_from_device_text, get_changes_from_device_text, clear_all_records_on_device_text,
  device_will_clear_all_records_text, acknowledge_changes_from_device_text, process_changes_text,
  device_ready_to_receive_changes_text, remap_record_identifiers_text, preparing_text,
}

-- client->data_class, NULL where there is no client
abbrev pub class_of : Option MobilesyncClient → Option CString
class_of none = none
class_of (some client) = client.data_class

abbrev pub is_dict : {P : Type 0} → Node P → Bool
is_dict (Node.dict es) = true
is_dict _ = false

-- direction == MOBILESYNC_SYNC_DIR_COMPUTER_TO_DEVICE
abbrev pub to_device : SyncDirection → Bool
to_device SyncDirection.computer_to_device = true
to_device SyncDirection.device_to_computer = false

-- The byte that plist_get_bool_val stores in has_more_changes, which is 0.
abbrev has_more : {P : Type 0} → Node P → Bool
has_more (Node.boolean b) = b
has_more _ = false

module _ {P W : Type 0} (nodes : PlistNodes P) (port : PlistPort P W) where
  -- A message of a name and the data class alone, where there is a session.
  abbrev send_named : Option MobilesyncClient → CString → Option CString → W → MobilesyncError × W
  send_named client name none w = (MobilesyncError.invalid_arg, w)
  send_named client name (some data_class) w =
      mobilesync_send nodes port client (some (class_message nodes port name data_class)) w

  unfoldable pub mobilesync_get_records :
      Option MobilesyncClient → Option CString → W → MobilesyncError × W
  mobilesync_get_records client none w = (MobilesyncError.invalid_arg, w)
  mobilesync_get_records client (some operation) w = send_named client operation (class_of client) w

  unfoldable pub mobilesync_get_all_records_from_device :
      Option MobilesyncClient → W → MobilesyncError × W
  mobilesync_get_all_records_from_device client w =
      mobilesync_get_records client (some get_all_records_from_device_text) w

  unfoldable pub mobilesync_get_changes_from_device :
      Option MobilesyncClient → W → MobilesyncError × W
  mobilesync_get_changes_from_device client w =
      mobilesync_get_records client (some get_changes_from_device_text) w

  unfoldable pub mobilesync_acknowledge_changes_from_device :
      Option MobilesyncClient → W → MobilesyncError × W
  mobilesync_acknowledge_changes_from_device client w =
      send_named client acknowledge_changes_from_device_text (class_of client) w

  -- What mobilesync_receive_changes stores: the entities, whether the record is the last, and the
  -- actions. Its test of the type of the actions is on the pointer `actions`, not on the node, so that
  -- the outcome of that test is an argument; the pointer is set to NULL where it fails.
  pub record Changes : Type 0 where
    pub entities : Option P
    pub is_last_record : Bool
    pub actions : Option P

  abbrev more_changes : Option P → Bool
  more_changes none = false
  more_changes (some p) = has_more (nodes.view p)

  abbrev changes_in : Bool → List P → Changes
  changes_in actions_test ps = record {
    entities = item 2 ps;
    is_last_record = not (more_changes (item 3 ps));
    actions = if actions_test then item 4 ps else none;
  }

  abbrev any_type : CString → MobilesyncError
  any_type response_type = MobilesyncError.success

  abbrev changes_answered :
      Bool → MobilesyncError × Option P × W → MobilesyncError × Option Changes × W
  changes_answered actions_test (e, msg, w) =
      let ret = respond nodes port (unless_cancelled any_type) e msg in
      (
        ret,
        if is_success ret
            then some (changes_in actions_test (message_items nodes port msg))
            else none,
        w,
      )

  abbrev receive_changes_of :
      Option MobilesyncClient
      → Option CString
      → Bool
      → W
      → Outcome (MobilesyncError × Option Changes × W)
  receive_changes_of client none actions_test w = done (MobilesyncError.invalid_arg, none, w)
  receive_changes_of client (some data_class) actions_test w =
      mobilesync_receive nodes port client (some none) w >>= λ x.
      done (changes_answered actions_test x)

  -- The three pointers are taken to be set; what is stored is `none` where nothing is.
  unfoldable pub mobilesync_receive_changes :
      Option MobilesyncClient → Bool → W → Outcome (MobilesyncError × Option Changes × W)
  mobilesync_receive_changes client actions_test w =
      receive_changes_of client (class_of client) actions_test w

  abbrev pub clear_message : CString → P
  clear_message data_class = nodes.new_array (
      nodes.new_string clear_all_records_on_device_text
      ∷ (nodes.new_string data_class ∷ (nodes.new_string empty_parameter ∷ [])))

  abbrev answer_with :
      (CString → MobilesyncError) → MobilesyncError × Option P × W → MobilesyncError × W
  answer_with decide (e, msg, w) = (respond nodes port decide e msg, w)

  abbrev clear_of : Option MobilesyncClient → Option CString → W → Outcome (MobilesyncError × W)
  clear_of (some client) (some data_class) w =
      exchange_message nodes port client (clear_message data_class) w >>= λ x. done (
        answer_with
          (unless_cancelled (expect device_will_clear_all_records_text MobilesyncError.plist_error))
          x)
  clear_of client data_class w = done (MobilesyncError.invalid_arg, w)

  unfoldable pub mobilesync_clear_all_records_on_device :
      Option MobilesyncClient → W → Outcome (MobilesyncError × W)
  mobilesync_clear_all_records_on_device client w = clear_of client (class_of client) w

  abbrev actions_or_empty : Option P → P
  actions_or_empty none = nodes.new_string empty_parameter
  actions_or_empty (some actions) = actions

  unfoldable pub create_process_changes_message : CString → P → Bool → Option P → P
  create_process_changes_message data_class entities more actions = nodes.new_array (
      nodes.new_string process_changes_text
      ∷ (nodes.new_string data_class
          ∷ (entities ∷ (nodes.new_bool more ∷ (actions_or_empty actions ∷ [])))))

  -- The device is ready: a ping is sent, and if that succeeds the direction changes.
  abbrev pub ready_left :
      MobilesyncClient → MobilesyncError × Option P × W → MobilesyncError × MobilesyncClient × W
  ready_left client (e, msg, w) =
      let ret =
        respond nodes port
          (unless_cancelled (expect device_ready_to_receive_changes_text MobilesyncError.not_ready))
          e msg in
      let (ping, w') =
        device_link_service_send_ping nodes port client.parent (some preparing_text) w in
      let turned = record client { direction = SyncDirection.computer_to_device } in
      if not (is_success ret)
      then (ret, client, w)
      else if is_success (mobilesync_error ping)
      then (MobilesyncError.success, turned, w')
      else (mobilesync_error ping, client, w')

  abbrev ready_of :
      MobilesyncClient → Option CString → W → Outcome (MobilesyncError × MobilesyncClient × W)
  ready_of client none w = done (MobilesyncError.invalid_arg, client, w)
  ready_of client (some data_class) w =
      let received = mobilesync_receive nodes port (some client) (some none) w >>= λ x.
      done (ready_left client x) in
      if to_device client.direction
      then done (MobilesyncError.wrong_direction, client, w)
      else received

  unfoldable pub ready_to_send :
      MobilesyncClient → W → Outcome (MobilesyncError × MobilesyncClient × W)
  ready_to_send client w = ready_of client client.data_class w

  abbrev some_client :
      MobilesyncError × MobilesyncClient × W → MobilesyncError × Option MobilesyncClient × W
  some_client (e, client, w) = (e, some client, w)

  pub mobilesync_ready_to_send_changes_from_computer :
      Option MobilesyncClient → W → Outcome (MobilesyncError × Option MobilesyncClient × W)
  mobilesync_ready_to_send_changes_from_computer none w =
      done (MobilesyncError.invalid_arg, none, w)
  mobilesync_ready_to_send_changes_from_computer (some client) w =
      ready_to_send client w >>= λ x. done (some_client x)

  abbrev send_changes_of :
      MobilesyncClient → Option CString → P → Bool → Option P → W → MobilesyncError × W
  send_changes_of client none entities is_last_record actions w = (MobilesyncError.invalid_arg, w)
  send_changes_of client (some data_class) entities is_last_record actions w =
      let msg = create_process_changes_message data_class entities (not is_last_record) actions in
      if not (is_dict (nodes.view entities))
      then (MobilesyncError.invalid_arg, w)
      else if to_device client.direction
      then mobilesync_send nodes port (some client) (some msg) w
      else (MobilesyncError.wrong_direction, w)

  unfoldable pub mobilesync_send_changes :
      Option MobilesyncClient → Option P → Bool → Option P → W → MobilesyncError × W
  mobilesync_send_changes (some client) (some entities) is_last_record actions w =
      send_changes_of client client.data_class entities is_last_record actions w
  mobilesync_send_changes client entities is_last_record actions w =
      (MobilesyncError.invalid_arg, w)

  -- A dictionary, or NULL where the node is another.
  abbrev mapping_of : Option P → Option P
  mapping_of none = none
  mapping_of (some p) = if is_dict (nodes.view p) then some p else none

  abbrev remapped : MobilesyncError × Option P × W → MobilesyncError × Option P × W
  remapped (e, msg, w) =
      let ret =
        respond nodes port
          (unless_cancelled (expect remap_record_identifiers_text MobilesyncError.plist_error)) e
          msg in
      (ret, if is_success ret then mapping_of (item 2 (message_items nodes port msg)) else none, w)

  abbrev remap_of : MobilesyncClient → Option CString → W → Outcome (MobilesyncError × Option P × W)
  remap_of client none w = done (MobilesyncError.invalid_arg, none, w)
  remap_of client (some data_class) w =
      let received =
        mobilesync_receive nodes port (some client) (some none) w >>= λ x. done (remapped x) in
      if to_device client.direction
      then received
      else done (MobilesyncError.wrong_direction, none, w)

  -- `mapping` is taken to be set; the second result is what *mapping holds with SUCCESS.
  unfoldable pub mobilesync_remap_identifiers :
      Option MobilesyncClient → W → Outcome (MobilesyncError × Option P × W)
  mobilesync_remap_identifiers none w = done (MobilesyncError.invalid_arg, none, w)
  mobilesync_remap_identifiers (some client) w = remap_of client client.data_class w
