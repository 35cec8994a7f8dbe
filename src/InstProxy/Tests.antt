-- ===== src/InstProxy/Tests.antt =====
-- src/installation_proxy.c: the examples.
use libiphone_debian.Common.{none, some, true, false, [], ◌∷◌, ◌≡◌, refl, arith}
use libiphone_debian.Common.CString.{CString, string_eq}
use libiphone_debian.Common.Outcome.{done}
use libiphone_debian.Plist.{entry, insert_item}
use libiphone_debian.Plist.Tree.{
  Tree, Mail, tree_nodes, text, number, table, row, blank, next_mail, posted, listed, cons, nil,
}
use libiphone_debian.PropertyList.{PlistClient, PlistServiceError}
use libiphone_debian.InstProxy.{
  InstproxyError, InstproxyPort, instproxy_error, instproxy_lock, instproxy_unlock,
}
use libiphone_debian.InstProxy.Command.{instproxy_send_command, command_dict}
use libiphone_debian.InstProxy.Operation.{StatusCallback, instproxy_perform_operation}
use libiphone_debian.InstProxy.Operation.Reports.{Progress, perform_operation-Progress}
use libiphone_debian.InstProxy.Operation.Completion.{IsCompleted, perform_operation-IsCompleted}
use libiphone_debian.InstProxy.Browse.{browse, browse_loop}
use libiphone_debian.InstProxy.Strings.{
  status_text, complete_text, install_text, current_amount_text, current_list_text,
  browsing_applications_text, browse_text,
}

abbrev plist_client : PlistClient
plist_client = record { connection = none }

abbrev mail_port : InstproxyPort Tree Mail
mail_port = record {
  client_new = λ device port w. (PlistServiceError.success, some plist_client, w);
  client_free = λ client w. (PlistServiceError.success, w);
  send_xml = λ client t w. posted t w;
  receive = λ client w. done (next_mail w.inbox w.outbox);
  receive_with_timeout = λ client timeout w. done (next_mail w.inbox w.outbox);
  thread_create = λ w. (true, w);
}

-- The callback keeps the statuses, the last one first.
abbrev keep : StatusCallback Tree Mail
keep operation dict w = record w { outbox = dict ∷ w.outbox }

abbrev status : CString → Tree
status s = table (row status_text (text s) blank)

abbrev install_mail : Mail
install_mail = record { inbox = status install_text ∷ (status complete_text ∷ []); outbox = [] }

installing :
    Progress tree_nodes mail_port
      (some keep)
      install_text
      (some plist_client)
      install_mail
      1
      (record { inbox = status complete_text ∷ []; outbox = status install_text ∷ [] })
unfolding entry string_eq
installing =
    Progress.report install_mail (record { inbox = status complete_text ∷ []; outbox = [] }) _ 0
      (status install_text) refl refl
      (Progress.none_yet
        (record { inbox = status complete_text ∷ []; outbox = status install_text ∷ [] }))

perform_operation-Progress_example :
    instproxy_perform_operation tree_nodes mail_port 5
      (some keep)
      install_text
      (record { parent = some plist_client; locked = false; status_updater = true })
      install_mail
    ≡ done (
      InstproxyError.success,
      record { parent = some plist_client; locked = false; status_updater = true },
      record { inbox = []; outbox = status complete_text ∷ (status install_text ∷ []) },
    )
unfolding entry string_eq
perform_operation-Progress_example =
    perform_operation-Progress tree_nodes mail_port (some keep) install_text plist_client true 1 5
      (status complete_text) InstproxyError.success install_mail
      (record { inbox = status complete_text ∷ []; outbox = status install_text ∷ [] })
      (record { inbox = []; outbox = status install_text ∷ [] }) installing refl refl (omega arith)

perform_operation-IsCompleted_example :
    IsCompleted tree_nodes mail_port
      (some keep)
      install_text
      plist_client
      install_mail
      (record { inbox = []; outbox = status complete_text ∷ (status install_text ∷ []) })
unfolding instproxy_perform_operation instproxy_lock instproxy_unlock instproxy_error entry
    string_eq
perform_operation-IsCompleted_example =
    perform_operation-IsCompleted tree_nodes mail_port (some keep) install_text plist_client true 2
      install_mail
      (record { inbox = []; outbox = status complete_text ∷ (status install_text ∷ []) })
      (record { parent = some plist_client; locked = false; status_updater = true }) refl

abbrev applications : CString → Tree → Tree
applications s app = table (
    row status_text (text s)
      (row current_amount_text (number 1) (row current_list_text (listed (cons app nil)) blank)))

-- Two answers, with an application each.
browse_two :
    browse tree_nodes mail_port [] 3
      (record { parent = some plist_client; locked = false; status_updater = false })
      none
      true
      (record {
        inbox =
            applications browsing_applications_text (number 7)
            ∷ (applications complete_text (number 8) ∷ []);
        outbox = [];
      })
    ≡ done (
      InstproxyError.success,
      some (listed (cons (number 7) (cons (number 8) nil))),
      record { parent = some plist_client; locked = false; status_updater = false },
      record { inbox = []; outbox = command_dict tree_nodes browse_text none none none ∷ [] },
    )
unfolding browse browse_loop instproxy_send_command instproxy_lock instproxy_unlock instproxy_error
    entry insert_item string_eq
browse_two = refl
