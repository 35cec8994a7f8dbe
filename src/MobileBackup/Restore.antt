-- ===== src/MobileBackup/Restore.antt =====
-- src/mobilebackup.c: the request of a restore, its answers, and its end.
pub mod Ending
use libiphone_debian.Common.{
  false, Bool, List, Option, ℕ, none, some, if◌then◌else◌, [], ◌∷◌, is_some, ◌==◌, ◌%◌, ◌/◌,
}
use libiphone_debian.Common.CString.{CString, string_eq}
use libiphone_debian.Common.Outcome.{Outcome, done, ◌>>=◌}
use libiphone_debian.Idevice.{Usbmuxd, Gnutls}
use libiphone_debian.Plist.{PlistNodes, insert_item, string_value, items}
use libiphone_debian.DeviceLink.{PlistPort}
use libiphone_debian.DeviceLink.Messages.{disconnect_message}
use libiphone_debian.DeviceLink.Client.{device_link_service_client_free}
use libiphone_debian.MobileBackup.{
  MobilebackupError, MobilebackupClient, is_success, mobilebackup_receive,
}
use libiphone_debian.MobileBackup.Message.{
  is_dict, mobilebackup_send_message, mobilebackup_receive_message,
}
use libiphone_debian.MobileBackup.Strings.{
  backup_message_type_key_text, backup_manifest_key_text, backup_protocol_version_text,
  backup_message_restore_request_text, backup_notify_spring_board_text,
  backup_preserve_settings_text, backup_preserve_camera_roll_text,
  backup_message_restore_reply_ok_text, backup_message_restore_file_received_text,
  backup_message_restore_application_received_text, backup_message_restore_complete_text,
}
use libiphone_debian.MobileBackup.Requests.{version_error, version_in}

-- IS_FLAG_SET(flags, 1 << 0), 1 << 1 and 1 << 2
pub data RestoreFlag : Type 0 where
  notify_springboard : RestoreFlag
  preserve_settings : RestoreFlag
  preserve_camera_roll : RestoreFlag

abbrev is_flag_set : ℕ → RestoreFlag → Bool
is_flag_set flags RestoreFlag.notify_springboard = flags % 2 == 1
is_flag_set flags RestoreFlag.preserve_settings = (flags / 2) % 2 == 1
is_flag_set flags RestoreFlag.preserve_camera_roll = (flags / 4) % 2 == 1

module _ {P W : Type 0} (nodes : PlistNodes P) (port : PlistPort P W) where
  abbrev flag_node : ℕ → RestoreFlag → P
  flag_node flags flag = nodes.new_bool (is_flag_set flags flag)

  abbrev restore_entries : P → ℕ → CString → List (CString × P)
  restore_entries manifest flags version =
      insert_item backup_preserve_camera_roll_text
        (flag_node flags RestoreFlag.preserve_camera_roll)
        (insert_item backup_preserve_settings_text (flag_node flags RestoreFlag.preserve_settings) (
          insert_item backup_notify_spring_board_text
            (flag_node flags RestoreFlag.notify_springboard)
            (insert_item backup_protocol_version_text (nodes.new_string version) (
              insert_item backup_message_type_key_text
                (nodes.new_string backup_message_restore_request_text)
                (insert_item backup_manifest_key_text manifest [])))))

  abbrev restore_replied : CString → MobilebackupError × Option P × W → MobilebackupError × W
  restore_replied version (e, dict, w) =
      (if is_success e then version_error version (version_in nodes port dict) else e, w)

  abbrev restore_requested :
      MobilebackupClient → CString → MobilebackupError × W → Outcome (MobilebackupError × W)
  restore_requested client version (e, w) =
      let reply =
        mobilebackup_receive_message nodes port (some client)
          (some backup_message_restore_reply_ok_text) w
        >>= λ x. done (restore_replied version x) in
      if is_success e then reply else done (e, w)

  abbrev restore_checked :
      MobilebackupClient → P → ℕ → CString → W → Outcome (MobilebackupError × W)
  restore_checked client manifest flags version w =
      let answer = restore_requested client version (
        mobilebackup_send_message nodes port (some client) none
          (some (nodes.new_dict (restore_entries manifest flags version))) w) in
      if is_dict (nodes.view manifest) then answer else done (MobilebackupError.plist_error, w)

  pub mobilebackup_request_restore :
      Option MobilebackupClient
      → Option P
      → ℕ
      → Option CString
      → W
      → Outcome (MobilebackupError × W)
  mobilebackup_request_restore (some client) (some manifest) flags (some version) w =
      let answer = restore_checked client manifest flags version w in
      if is_some client.parent then answer else done (MobilebackupError.invalid_arg, w)
  mobilebackup_request_restore client manifest flags version w =
      done (MobilebackupError.invalid_arg, w)

  pub mobilebackup_receive_restore_file_received :
      Option MobilebackupClient → W → Outcome (MobilebackupError × Option P × W)
  mobilebackup_receive_restore_file_received client w =
      mobilebackup_receive_message nodes port client
        (some backup_message_restore_file_received_text) w

  pub mobilebackup_receive_restore_application_received :
      Option MobilebackupClient → W → Outcome (MobilebackupError × Option P × W)
  mobilebackup_receive_restore_application_received client w =
      mobilebackup_receive_message nodes port client
        (some backup_message_restore_application_received_text) w

  -- The string of DLMessageDisconnect's array of two.
  abbrev pub disconnect_name : List P → Option (Option CString)
  disconnect_name (name ∷ (reason ∷ [])) = some (string_value nodes (some name))
  disconnect_name _ = none

  abbrev pub dlmsg_name : Option P → Option (Option CString)
  dlmsg_name none = none
  dlmsg_name (some dlmsg) = disconnect_name (items (nodes.view dlmsg))

  -- Whether the answer is the end of the link.
  abbrev pub is_disconnect : Option (Option CString) → Bool
  is_disconnect (some (some msg)) = string_eq msg disconnect_message
  is_disconnect _ = false

module _ {P W : Type 0} (nodes : PlistNodes P) (port : PlistPort P W) (mux : Usbmuxd W)
    (tls : Gnutls W) where
  -- The link is freed at its end, and the client has no parent from then on.
  abbrev pub ended_by : MobilebackupClient → W → Bool → MobilebackupError × MobilebackupClient × W
  ended_by client w disconnected =
      let (freed, w') = device_link_service_client_free mux tls client.parent w in
      let alone : MobilebackupClient = record { parent = none } in
      if disconnected
      then (MobilebackupError.success, alone, w')
      else (MobilebackupError.plist_error, client, w)

  abbrev pub completed :
      MobilebackupClient
      → MobilebackupError × Option P × W
      → MobilebackupError × MobilebackupClient × W
  completed client (e, dlmsg, w) =
      if is_success e
      then ended_by client w (is_disconnect nodes port (dlmsg_name nodes port dlmsg))
      else (e, client, w)

  abbrev pub complete_sent :
      MobilebackupClient
      → MobilebackupError × W
      → Outcome (MobilebackupError × MobilebackupClient × W)
  complete_sent client (e, w) =
      let answer = mobilebackup_receive nodes port (some client) (some none) w >>= λ x.
      done (completed client x) in
      if is_success e then answer else done (e, client, w)

  abbrev pub some_client :
      MobilebackupError × MobilebackupClient × W → MobilebackupError × Option MobilebackupClient × W
  some_client (e, client, w) = (e, some client, w)

  unfoldable pub mobilebackup_send_restore_complete :
      Option MobilebackupClient → W → Outcome (MobilebackupError × Option MobilebackupClient × W)
  mobilebackup_send_restore_complete none w = done (MobilebackupError.invalid_arg, none, w)
  mobilebackup_send_restore_complete (some client) w =
      complete_sent client (
        mobilebackup_send_message nodes port (some client)
          (some backup_message_restore_complete_text) none w)
      >>= λ x. done (some_client x)
