-- ===== src/FileRelay/Tests.antt =====
-- src/file_relay.c: the examples.
use libiphone_debian.Common.{none, some, List, [], ◌∷◌, ◌≡◌, refl}
use libiphone_debian.Common.CString.{CString, string_eq}
use libiphone_debian.Common.Outcome.{done}
use libiphone_debian.Idevice.Tests.{plain}
use libiphone_debian.Plist.{entry, insert_item}
use libiphone_debian.Plist.Tree.{Tree, Mail, tree_nodes, next_mail, posted, text, table, blank, row}
use libiphone_debian.PropertyList.{PlistClient}
use libiphone_debian.FileRelay.{
  FileRelayError, RelayPort, judge_answer, request_dict, file_relay_request_sources,
}
use libiphone_debian.FileRelay.Answer.{IsAcknowledged, request_sources-IsAcknowledged}
use libiphone_debian.FileRelay.Strings.{
  status_text, acknowledged_text, error_text, staging_empty_text,
}

abbrev mail_port : RelayPort Tree Mail
mail_port = record {
  send_xml = λ client t w. posted t w;
  receive_with_timeout = λ client timeout w. done (next_mail w.inbox w.outbox);
}

abbrev parent : PlistClient
parent = record { connection = some plain }

abbrev wanted : List CString
wanted = (b'W' ∷ (b'i' ∷ (b'F' ∷ (b'i' ∷ [])))) ∷ []

abbrev mail_before : Mail
mail_before = record {
  inbox = table (row status_text (text acknowledged_text) blank) ∷ [];
  outbox = [];
}

abbrev mail_after : Mail
mail_after = record { inbox = []; outbox = request_dict tree_nodes mail_port wanted ∷ [] }

request_run :
    file_relay_request_sources tree_nodes mail_port
      (some (record { parent = some parent }))
      (some wanted)
      none
      mail_before
    ≡ done (FileRelayError.success, some plain, mail_after)
unfolding file_relay_request_sources judge_answer entry insert_item string_eq
request_run = refl

request_sources-IsAcknowledged_example :
    IsAcknowledged tree_nodes mail_port parent wanted mail_before mail_after
    × (some plain ≡ parent.connection)
request_sources-IsAcknowledged_example =
    request_sources-IsAcknowledged tree_nodes mail_port parent wanted none (some plain) mail_before
      mail_after request_run

nothing_staged :
    judge_answer tree_nodes mail_port (table (row error_text (text staging_empty_text) blank))
    ≡ FileRelayError.staging_empty
unfolding judge_answer entry string_eq
nothing_staged = refl
