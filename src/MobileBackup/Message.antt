-- ===== src/MobileBackup/Message.antt =====
-- src/mobilebackup.c: the messages inside of DLMessageProcessMessage.
use libiphone_debian.Common.{
  false, true, Bool, List, Option, none, some, if◌then◌else◌, [], is_some,
}
use libiphone_debian.Common.CString.{CString, string_eq}
use libiphone_debian.Common.Outcome.{Outcome, done, ◌>>=◌}
use libiphone_debian.Plist.{Node, PlistNodes, insert_item, entries, get_item, string_of}
use libiphone_debian.DeviceLink.{DeviceLinkError, PlistPort}
use libiphone_debian.DeviceLink.Service.{
  device_link_service_send_process_message, device_link_service_receive_process_message,
}
use libiphone_debian.MobileBackup.{
  MobilebackupError, MobilebackupClient, mobilebackup_error, is_success,
}
use libiphone_debian.MobileBackup.Strings.{backup_message_type_key_text}

abbrev pub is_dict : {P : Type 0} → Node P → Bool
is_dict (Node.dict es) = true
is_dict _ = false

module _ {P W : Type 0} (nodes : PlistNodes P) (port : PlistPort P W) where
  -- The plist is sent where the client has a parent.
  abbrev pub sent_message : DeviceLinkError × W → MobilebackupError × W
  sent_message (e, w) = (mobilebackup_error e, w)

  abbrev send_to_parent : MobilebackupClient → P → W → MobilebackupError × W
  send_to_parent client dict w =
      if is_some client.parent
      then sent_message
          (device_link_service_send_process_message nodes port client.parent (some dict) w)
      else (MobilebackupError.invalid_arg, w)

  abbrev pub typed_dict : CString → List (CString × P) → P
  typed_dict message es =
      nodes.new_dict (insert_item backup_message_type_key_text (nodes.new_string message) es)

  unfoldable pub mobilebackup_send_message :
      Option MobilebackupClient → Option CString → Option P → W → MobilebackupError × W
  mobilebackup_send_message (some client) none (some options) w =
      if is_dict (nodes.view options)
      then send_to_parent client options w
      else (MobilebackupError.invalid_arg, w)
  mobilebackup_send_message (some client) (some message) none w =
      send_to_parent client (typed_dict message []) w
  mobilebackup_send_message (some client) (some message) (some options) w =
      if is_dict (nodes.view options)
      then send_to_parent client (typed_dict message (entries (nodes.view options))) w
      else (MobilebackupError.invalid_arg, w)
  mobilebackup_send_message client message options w = (MobilebackupError.invalid_arg, w)

  -- The type of a message is the one that is expected.
  abbrev pub type_error : CString → Option CString → MobilebackupError
  type_error message none = MobilebackupError.reply_not_ok
  type_error message (some s) =
      if string_eq s message then MobilebackupError.success else MobilebackupError.reply_not_ok

  abbrev pub judged : CString → P → W → Option P → MobilebackupError × Option P × W
  judged message dict w none = (MobilebackupError.plist_error, none, w)
  judged message dict w (some node) =
      (type_error message (string_of (nodes.view node)), some dict, w)

  abbrev pub message_answered :
      CString → DeviceLinkError × Option P × W → MobilebackupError × Option P × W
  message_answered message (e, none, w) = (
    if is_success (mobilebackup_error e)
        then MobilebackupError.plist_error
        else mobilebackup_error e,
    none,
    w,
  )
  message_answered message (e, some dict, w) =
      if is_success (mobilebackup_error e)
      then judged message dict w (get_item nodes dict backup_message_type_key_text)
      else (mobilebackup_error e, none, w)

  -- The second result is what is stored in *result, where `result` is set; a message of another type
  -- is stored too.
  unfoldable pub mobilebackup_receive_message :
      Option MobilebackupClient → Option CString → W → Outcome (MobilebackupError × Option P × W)
  mobilebackup_receive_message (some client) (some message) w =
      let answer =
        device_link_service_receive_process_message nodes port client.parent true w >>= λ x.
        done (message_answered message x) in
      if is_some client.parent then answer else done (MobilebackupError.invalid_arg, none, w)
  mobilebackup_receive_message client message w = done (MobilebackupError.invalid_arg, none, w)
