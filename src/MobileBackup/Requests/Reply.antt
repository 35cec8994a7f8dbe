-- ===== src/MobileBackup/Requests/Reply.antt =====
-- src/mobilebackup.c: the answer to the request of a backup.
use libiphone_debian.Common.CString.{string_eq_refl, CString, nul_free→IsCString, string_eq}
use libiphone_debian.Common.{
  inr, inl, Bool-cases, true, List, Option, some, none, if◌then◌else◌, ◌≡◌, refl, ap,
}
use libiphone_debian.Common.Outcome.{done}
use libiphone_debian.Plist.{Node, PlistNodes, IsBuilt, IsKeyed, entry, insert_item, string_value}
use libiphone_debian.PropertyList.{PlistClient, PlistServiceError}
use libiphone_debian.DeviceLink.{PlistPort}
use libiphone_debian.DeviceLink.Messages.{process_message}
use libiphone_debian.DeviceLink.Service.{
  message_of, sent_or_mux, device_link_service_send_process_message,
  device_link_service_receive_process_message,
}
use libiphone_debian.DeviceLink.Service.Process.{processed-message}
use libiphone_debian.MobileBackup.{MobilebackupError, MobilebackupClient, mobilebackup_error}
use libiphone_debian.MobileBackup.Message.{
  sent_message, judged, mobilebackup_send_message, mobilebackup_receive_message,
}
use libiphone_debian.MobileBackup.Strings.{
  backup_protocol_version_text, backup_message_type_key_text, backup_message_backup_reply_ok_text,
  backup_manifest_key_text, backup_computer_base_path_key_text,
}
use libiphone_debian.MobileBackup.Requests.{
  is_manifest, backup_entries, backup_replied, mobilebackup_request_backup,
}

abbrev pub client_over : PlistClient → MobilebackupClient
client_over parent = record { parent = some (record { parent = some parent }) }

module _ {P W : Type 0} (nodes : PlistNodes P) (built : IsBuilt nodes) (port : PlistPort P W) where
  -- What goes out for a message, and what comes in as one.
  abbrev pub packed : P → P
  packed dict = message_of nodes port process_message dict

  abbrev pub posted_to : PlistClient → P → W → MobilebackupError × W
  posted_to parent dict w =
      sent_message nodes port
        (sent_or_mux nodes port (port.send (some parent) (some (packed dict)) w))

  send_message-dict :
      (parent : PlistClient) (dict : P) (es : List (CString × P)) (w : W)
      → nodes.view dict ≡ Node.dict es
      → mobilebackup_send_message nodes port (some (client_over parent)) none (some dict) w
        ≡ posted_to parent dict w
  unfolding mobilebackup_send_message device_link_service_send_process_message
  send_message-dict parent dict es w h = rw h refl

  backup_entries-IsKeyed :
      (manifest : Option P) (base_path version : CString)
      → IsKeyed (backup_entries nodes port manifest base_path version)
  unfolding insert_item entry string_eq
  backup_entries-IsKeyed none base_path version = (
    nul_free→IsCString backup_computer_base_path_key_text refl,
    refl,
    (
      nul_free→IsCString backup_message_type_key_text refl,
      refl,
      (nul_free→IsCString backup_protocol_version_text refl, refl, tt),
    ),
  )
  backup_entries-IsKeyed (some manifest) base_path version = (
    nul_free→IsCString backup_manifest_key_text refl,
    refl,
    (
      nul_free→IsCString backup_computer_base_path_key_text refl,
      refl,
      (
        nul_free→IsCString backup_message_type_key_text refl,
        refl,
        (nul_free→IsCString backup_protocol_version_text refl, refl, tt),
      ),
    ),
  )

  judged-typed :
      (message : CString) (dict : P) (w : W) (found : Option P)
      → string_value nodes found ≡ some message
      → judged nodes port message dict w found ≡ (MobilebackupError.success, some dict, w)
  judged-typed message dict w none e = cc
  judged-typed message dict w (some node) e = rw (e, string_eq_refl message) refl

  receive_message-packed :
      (parent : PlistClient) (message : CString) (dict : P) (es : List (CString × P)) (w w1 : W)
      → nodes.view dict ≡ Node.dict es
      → string_value nodes (entry backup_message_type_key_text es) ≡ some message
      → port.receive (some parent) (some none) w
        ≡ done (PlistServiceError.success, some (packed dict), w1)
      → mobilebackup_receive_message nodes port (some (client_over parent)) (some message) w
        ≡ done (MobilebackupError.success, some dict, w1)
  unfolding mobilebackup_receive_message device_link_service_receive_process_message
      mobilebackup_error
  receive_message-packed parent message dict es w w1 h typed received =
      rw (received, processed-message nodes built port port dict w1, h)
        (ap done (judged-typed message dict w1 (entry backup_message_type_key_text es) typed))

  -- What comes of the answer: the reply is sent back if its version is the one asked for.
  abbrev pub answered : PlistClient → CString → P → CString → W → MobilebackupError × W
  answered parent version dict answer w =
      if string_eq answer version
      then posted_to parent dict w
      else (MobilebackupError.bad_version, w)

  backup_replied-versioned :
      (parent : PlistClient) (version answer : CString) (dict : P) (es : List (CString × P)) (w : W)
      → nodes.view dict ≡ Node.dict es
      → string_value nodes (entry backup_protocol_version_text es) ≡ some answer
      → backup_replied nodes port
          (client_over parent)
          version
          (MobilebackupError.success, some dict, w)
        ≡ answered parent version dict answer w
  backup_replied-versioned parent version answer dict es w h e =
      elim (Bool-cases (string_eq answer version)) [
        | inl t ↦ rw (h, e, t) (send_message-dict parent dict es w h)
        | inr f ↦ rw (h, e, f) refl
      ]

  -- If libplist takes apart what it has built, the manifest is NULL or a dictionary, the request of
  -- the backup is sent with success, and the device answers with a dictionary of the type
  -- BackupMessageBackupReplyOK that names a version as a string, then mobilebackup_request_backup
  -- returns: it sends the very dictionary back and gives what came of that if the version is the one
  -- that was asked for, and gives BAD_VERSION and sends nothing more if it is another.
  pub request_backup-answered :
      (parent : PlistClient) (manifest : Option P) (base_path version answer : CString) (dict : P)
      (es : List (CString × P)) (w w1 w2 : W)
      → is_manifest nodes port manifest ≡ true
      → port.send
          (some parent)
          (some (packed (nodes.new_dict (backup_entries nodes port manifest base_path version))))
          w
        ≡ (PlistServiceError.success, w1)
      → port.receive (some parent) (some none) w1
        ≡ done (PlistServiceError.success, some (packed dict), w2)
      → nodes.view dict ≡ Node.dict es
      → string_value nodes (entry backup_message_type_key_text es)
        ≡ some backup_message_backup_reply_ok_text
      → string_value nodes (entry backup_protocol_version_text es) ≡ some answer
      → mobilebackup_request_backup nodes port
          (some (client_over parent))
          manifest
          (some base_path)
          (some version)
          w
        ≡ done (answered parent version dict answer w2)
  unfolding mobilebackup_request_backup mobilebackup_error
  request_backup-answered parent manifest base_path version answer dict es w w1 w2 m sent received h
        typed versioned =
      let sending =
        send_message-dict parent _ _ w
          (built.view_dict _ (backup_entries-IsKeyed manifest base_path version)) in
      let reply = receive_message-packed parent _ dict es w1 w2 h typed received in
      rw (m, sending, sent, reply)
        (ap done (backup_replied-versioned parent version answer dict es w2 h versioned))
