-- ===== src/MobileBackup/Tests.antt =====
-- src/mobilebackup.c: the examples.
use libiphone_debian.Common.{true, arith, none, some, [], ◌∷◌, ◌≡◌, refl}
use libiphone_debian.Plist.{insert_item, entry}
use libiphone_debian.Plist.Tree.{
  number, listed, cons, nil, Tree, Mail, tree_nodes, tree_nodes-IsBuilt, text, table, blank, row,
  pairs_of,
}
use libiphone_debian.Idevice.{Usbmuxd, Gnutls, ConnectionType}
use libiphone_debian.Idevice.Transfer.{idevice_disconnect}
use libiphone_debian.Idevice.Ssl.{idevice_connection_disable_ssl}
use libiphone_debian.DeviceLink.Messages.{disconnect_message}
use libiphone_debian.DeviceLink.Client.{device_link_service_client_free}
use libiphone_debian.DeviceLink.Service.{
  device_link_service_send_process_message, device_link_service_receive,
}
use libiphone_debian.PropertyList.Client.{property_list_service_client_free}
use libiphone_debian.MobileBackup.{
  MobilebackupClient, mobilebackup_client_free, mobilebackup_receive, mobilebackup_error,
  MobilebackupError,
}
use libiphone_debian.MobileBackup.Message.{typed_dict, mobilebackup_send_message}
use libiphone_debian.MobileBackup.Restore.{mobilebackup_send_restore_complete}
use libiphone_debian.MobileBackup.Restore.Ending.{IsEnded, send_restore_complete-IsEnded}
use libiphone_debian.MobileBackup.Strings.{
  backup_message_restore_complete_text, backup_message_type_key_text, backup_protocol_version_text,
  backup_message_backup_reply_ok_text,
}
use libiphone_debian.Common.CString.{CString, string_eq}
use libiphone_debian.Common.Outcome.{done}
use libiphone_debian.PropertyList.{PlistClient}
use libiphone_debian.DeviceLink.Tests.{mail_port}
use libiphone_debian.MobileBackup.Requests.{backup_entries, mobilebackup_request_backup}
use libiphone_debian.MobileBackup.Requests.Reply.{client_over, packed, request_backup-answered}

abbrev parent : PlistClient
parent = record { connection = none }

abbrev base_path : CString
base_path = b'/' ∷ []

abbrev wanted : CString
wanted = b'1' ∷ (b'.' ∷ (b'6' ∷ []))

abbrev older : CString
older = b'1' ∷ (b'.' ∷ (b'5' ∷ []))

-- The answer of a device of an older version.
abbrev reply : Tree
reply = table (
    row backup_message_type_key_text (text backup_message_backup_reply_ok_text)
      (row backup_protocol_version_text (text older) blank))

abbrev sent_request : Tree
sent_request =
    packed tree_nodes tree_nodes-IsBuilt mail_port
      (tree_nodes.new_dict (backup_entries tree_nodes mail_port none base_path wanted))

abbrev mail_before : Mail
mail_before = record {
  inbox = packed tree_nodes tree_nodes-IsBuilt mail_port reply ∷ [];
  outbox = [];
}

abbrev mail_sent : Mail
mail_sent = record mail_before { outbox = sent_request ∷ [] }

abbrev mail_after : Mail
mail_after = record { inbox = []; outbox = sent_request ∷ [] }

request_backup-answered_example :
    mobilebackup_request_backup tree_nodes mail_port
      (some (client_over parent))
      none
      (some base_path)
      (some wanted)
      mail_before
    ≡ done (MobilebackupError.bad_version, mail_after)
unfolding string_eq entry
request_backup-answered_example =
    request_backup-answered tree_nodes tree_nodes-IsBuilt mail_port parent none base_path wanted
      older reply
      (pairs_of (
        row backup_message_type_key_text (text backup_message_backup_reply_ok_text)
          (row backup_protocol_version_text (text older) blank)))
      mail_before mail_sent mail_after refl refl refl refl refl refl

-- A usbmuxd and a gnutls beside the mail.
abbrev quiet_mux : Usbmuxd Mail
quiet_mux = record {
  subscribe = λ w. (true, w);
  unsubscribe = λ w. (true, w);
  get_device_list = λ w. (none, w);
  get_device_by_uuid = λ uuid w. (none, w);
  connect = λ handle port w. (none, w);
  disconnect = λ socket w. record w { outbox = number socket ∷ w.outbox };
  send = λ socket d w. (true, 0, w);
  recv = λ socket n w. (true, [], w);
  recv_timeout = λ socket n timeout w. (true, [], w);
  recv_le = λ socket n w. omega arith;
  recv_timeout_le = λ socket n timeout w. omega arith;
}

abbrev quiet_tls : Gnutls Mail
quiet_tls = record {
  allocate = λ k w. (1, w);
  release = λ k h w. w;
  setup = λ s w. w;
  handshake = λ h w. (true, w);
  record_send = λ h d w. (0, w);
  record_recv = λ h n w. ([], w);
  record_recv_le = λ h n w. omega arith;
}

abbrev plain_client : MobilebackupClient
plain_client = client_over (record {
  connection = some (record { type = ConnectionType.usbmuxd; socket = 9; ssl_data = none });
})

abbrev completion : Tree
completion =
    packed tree_nodes tree_nodes-IsBuilt mail_port
      (typed_dict tree_nodes mail_port backup_message_restore_complete_text [])

abbrev goodbye : Mail
goodbye = record {
  inbox = listed (cons (text disconnect_message) (cons (text base_path) nil)) ∷ [];
  outbox = [];
}

-- The socket is closed behind the message.
abbrev closed : Mail
closed = record { inbox = []; outbox = number 9 ∷ (completion ∷ []) }

send_restore_complete-IsEnded_example :
    IsEnded tree_nodes mail_port quiet_mux quiet_tls plain_client goodbye closed
    × (mobilebackup_client_free tree_nodes mail_port quiet_mux quiet_tls
          (some (record { parent = none }))
          closed
        ≡ (MobilebackupError.success, closed))
unfolding mobilebackup_send_restore_complete mobilebackup_send_message mobilebackup_receive
    mobilebackup_error device_link_service_send_process_message device_link_service_receive
    device_link_service_client_free property_list_service_client_free idevice_disconnect
    idevice_connection_disable_ssl insert_item string_eq
send_restore_complete-IsEnded_example =
    send_restore_complete-IsEnded tree_nodes mail_port quiet_mux quiet_tls plain_client
      (record { parent = none }) goodbye closed closed refl
