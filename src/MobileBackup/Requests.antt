-- ===== src/MobileBackup/Requests.antt =====
-- src/mobilebackup.c: the request of a backup and its answer, and the report of an error.
pub mod Reply
use libiphone_debian.Common.{
  false, true, Bool, List, Option, ℕ, none, some, if◌then◌else◌, [], ◌∷◌, is_some, ◌==◌, ◌%◌, ◌/◌,
}
use libiphone_debian.Common.CString.{CString, string_eq}
use libiphone_debian.Common.Outcome.{Outcome, done, ◌>>=◌}
use libiphone_debian.Idevice.{Usbmuxd, Gnutls}
use libiphone_debian.Plist.{Node, PlistNodes, insert_item, get_item, string_value, items}
use libiphone_debian.DeviceLink.{DeviceLinkError, PlistPort}
use libiphone_debian.DeviceLink.Messages.{disconnect_message}
use libiphone_debian.DeviceLink.Client.{device_link_service_client_free}
use libiphone_debian.MobileBackup.{
  MobilebackupError, MobilebackupClient, is_success, mobilebackup_receive,
}
use libiphone_debian.MobileBackup.Message.{
  is_dict, mobilebackup_send_message, mobilebackup_receive_message,
}
use libiphone_debian.MobileBackup.Strings.{
  backup_message_type_key_text, backup_manifest_key_text, backup_computer_base_path_key_text,
  backup_message_backup_request_text, backup_protocol_version_text,
  backup_message_backup_reply_ok_text, backup_message_backup_file_received_text,
  backup_message_restore_request_text, backup_notify_spring_board_text,
  backup_preserve_settings_text, backup_preserve_camera_roll_text,
  backup_message_restore_reply_ok_text, backup_message_restore_file_received_text,
  backup_message_restore_application_received_text, backup_message_restore_complete_text,
  backup_error_reason_key_text, backup_message_error_text,
}

-- The version in the answer, where it holds one, has to be the version that was asked for.
abbrev pub version_error : CString → Option CString → MobilebackupError
version_error version none = MobilebackupError.success
version_error version (some s) =
    if string_eq s version then MobilebackupError.success else MobilebackupError.bad_version

module _ {P W : Type 0} (nodes : PlistNodes P) (port : PlistPort P W) where
  -- A manifest that is there has to be a dictionary.
  abbrev pub is_manifest : Option P → Bool
  is_manifest none = true
  is_manifest (some manifest) = is_dict (nodes.view manifest)

  abbrev with_manifest : Option P → List (CString × P)
  with_manifest none = []
  with_manifest (some manifest) = (backup_manifest_key_text, manifest) ∷ []

  abbrev pub backup_entries : Option P → CString → CString → List (CString × P)
  backup_entries manifest base_path version =
      insert_item backup_protocol_version_text (nodes.new_string version) (
        insert_item backup_message_type_key_text
          (nodes.new_string backup_message_backup_request_text)
          (insert_item backup_computer_base_path_key_text (nodes.new_string base_path)
            (with_manifest manifest)))

  abbrev pub version_in : Option P → Option CString
  version_in none = none
  version_in (some dict) = string_value nodes (get_item nodes dict backup_protocol_version_text)

  -- The answer is sent back.
  abbrev pub send_back :
      MobilebackupClient → MobilebackupError → Option P → W → MobilebackupError × W
  send_back client e dict w =
      if is_success e
      then mobilebackup_send_message nodes port (some client) none dict w
      else (e, w)

  abbrev pub backup_replied :
      MobilebackupClient → CString → MobilebackupError × Option P × W → MobilebackupError × W
  backup_replied client version (e, dict, w) =
      if is_success e
      then send_back client (version_error version (version_in dict)) dict w
      else (e, w)

  abbrev pub backup_requested :
      MobilebackupClient → CString → MobilebackupError × W → Outcome (MobilebackupError × W)
  backup_requested client version (e, w) =
      let reply =
        mobilebackup_receive_message nodes port (some client)
          (some backup_message_backup_reply_ok_text) w
        >>= λ x. done (backup_replied client version x) in
      if is_success e then reply else done (e, w)

  abbrev request_checked :
      MobilebackupClient → Option P → CString → CString → W → Outcome (MobilebackupError × W)
  request_checked client manifest base_path version w =
      let answer = backup_requested client version (
        mobilebackup_send_message nodes port (some client) none
          (some (nodes.new_dict (backup_entries manifest base_path version))) w) in
      if is_manifest manifest then answer else done (MobilebackupError.plist_error, w)

  unfoldable pub mobilebackup_request_backup :
      Option MobilebackupClient
      → Option P
      → Option CString
      → Option CString
      → W
      → Outcome (MobilebackupError × W)
  mobilebackup_request_backup (some client) manifest (some base_path) (some version) w =
      let answer = request_checked client manifest base_path version w in
      if is_some client.parent then answer else done (MobilebackupError.invalid_arg, w)
  mobilebackup_request_backup client manifest base_path version w =
      done (MobilebackupError.invalid_arg, w)

  pub mobilebackup_send_backup_file_received : Option MobilebackupClient → W → MobilebackupError × W
  mobilebackup_send_backup_file_received client w =
      mobilebackup_send_message nodes port client (some backup_message_backup_file_received_text)
        none w

  abbrev error_checked : MobilebackupClient → CString → W → MobilebackupError × W
  error_checked client reason w =
      if is_some client.parent
      then mobilebackup_send_message nodes port (some client) (some backup_message_error_text)
          (some (
            nodes.new_dict (insert_item backup_error_reason_key_text (nodes.new_string reason) [])))
          w
      else (MobilebackupError.invalid_arg, w)

  pub mobilebackup_send_error :
      Option MobilebackupClient → Option CString → W → MobilebackupError × W
  mobilebackup_send_error (some client) (some reason) w = error_checked client reason w
  mobilebackup_send_error client reason w = (MobilebackupError.invalid_arg, w)
