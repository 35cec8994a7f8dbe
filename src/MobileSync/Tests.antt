-- ===== src/MobileSync/Tests.antt =====
-- src/mobilesync.c: the examples.
use libiphone_debian.DeviceLink.Tests.{linked, mail_port}
use libiphone_debian.DeviceLink.Service.{
  device_link_service_send_ping, device_link_service_send, device_link_service_receive, message_of,
}
use libiphone_debian.Common.{none, some, true, false, List, Option, [], ◌∷◌, ◌≡◌, refl}
use libiphone_debian.Common.CString.{CString, string_eq}
use libiphone_debian.Common.Outcome.{done}
use libiphone_debian.Plist.Tree.{Tree, Mail, tree_nodes, text, table, blank, listed, cons, nil}
use libiphone_debian.DeviceLink.Messages.{ping_message}
use libiphone_debian.MobileSync.{MobilesyncError, MobilesyncClient, SyncDirection, mobilesync_error}
use libiphone_debian.MobileSync.Transfer.{mobilesync_send, mobilesync_receive, exchange_message}
use libiphone_debian.MobileSync.Session.{
  start_session, start_message, class_message, finish_session, start_response,
}
use libiphone_debian.MobileSync.Changes.{
  ready_to_send, create_process_changes_message, mobilesync_send_changes,
}
use libiphone_debian.MobileSync.Phase.{Phase, Call, next_all, run, run_all}
use libiphone_debian.MobileSync.Phase.Refinement.{run_all-next_all}
use libiphone_debian.MobileSync.Phase.Refusal.{IsRefused, IsRefused-unless_allowed}
use libiphone_debian.MobileSync.Strings.{
  device_ready_to_receive_changes_text, device_finished_session_text, sync_type_slow_text,
  finish_session_on_device_text, preparing_text,
}

abbrev client_in : SyncDirection → Option CString → MobilesyncClient
client_in direction data_class = record {
  parent = some linked;
  direction = direction;
  data_class = data_class;
}

abbrev contacts : CString
contacts = b'C' ∷ []

abbrev anchor : CString
anchor = b'4' ∷ []

abbrev named : CString → Tree
named name = listed (cons (text name) nil)

-- The device answers with a slow synchronization, and so on.
abbrev device_mail : Mail
device_mail = record {
  inbox =
      listed (
        cons (text contacts) (
          cons (text contacts)
            (cons (text contacts) (cons (text contacts) (cons (text sync_type_slow_text) nil)))))
      ∷ (named device_ready_to_receive_changes_text ∷ (named device_finished_session_text ∷ []));
  outbox = [];
}

abbrev session_calls : List (Call Tree)
session_calls =
    Call.start (some contacts)
      (some (record { device_anchor = none; computer_anchor = some anchor })) 1 true false
    ∷ (Call.send_changes (some (table blank)) true none
        ∷ (Call.ready_to_send_changes
            ∷ (Call.send_changes (some (table blank)) true none ∷ (Call.finish ∷ []))))

abbrev session_end : Mail
session_end = record {
  inbox = [];
  outbox =
      class_message tree_nodes mail_port finish_session_on_device_text contacts
      ∷ (create_process_changes_message tree_nodes mail_port contacts (table blank) false none
          ∷ (message_of tree_nodes mail_port ping_message (text preparing_text)
              ∷ (start_message tree_nodes mail_port contacts none anchor 1 ∷ [])));
}

abbrev session_results : List MobilesyncError
session_results =
    MobilesyncError.success
    ∷ (MobilesyncError.wrong_direction
        ∷ (MobilesyncError.success ∷ (MobilesyncError.success ∷ (MobilesyncError.success ∷ []))))

session_run :
    run_all tree_nodes mail_port session_calls
      (client_in SyncDirection.device_to_computer none)
      device_mail
    ≡ done (session_results, client_in SyncDirection.device_to_computer none, session_end)
unfolding run_all run start_session exchange_message mobilesync_send mobilesync_receive
    device_link_service_send device_link_service_receive mobilesync_error start_response string_eq
    mobilesync_send_changes ready_to_send device_link_service_send_ping finish_session
session_run = refl

run_all-next_all_example : Phase.idle ≡ next_all session_calls session_results Phase.idle
run_all-next_all_example =
    run_all-next_all tree_nodes mail_port session_calls
      (client_in SyncDirection.device_to_computer none)
      (client_in SyncDirection.device_to_computer none) session_results device_mail session_end
      session_run

IsRefused-unless_allowed_example :
    IsRefused tree_nodes mail_port
      (Call.send_changes (some (table blank)) true none)
      (client_in SyncDirection.device_to_computer (some contacts))
      device_mail
IsRefused-unless_allowed_example =
    IsRefused-unless_allowed tree_nodes mail_port (Call.send_changes (some (table blank)) true none)
      (client_in SyncDirection.device_to_computer (some contacts)) device_mail refl
