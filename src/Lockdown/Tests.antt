-- ===== src/Lockdown/Tests.antt =====
-- src/lockdown.c: the examples.
use libiphone_debian.Idevice.Devices.{idevice_get_uuid}
use libiphone_debian.Lockdown.Request.{
  plain_request, lockdown_check_result, CheckResult, lockdownd_send, lockdownd_receive,
}
use libiphone_debian.Lockdown.Session.Start.{
  accept_session, answered_start, request_session, start_request, lockdownd_start_session,
}
use libiphone_debian.Lockdown.Pairing.{
  lockdownd_gen_pair_cert, generate_pair_record_plist, pair_record_dict, PairCrypto,
}
use libiphone_debian.Lockdown.Values.{
  lockdownd_get_device_public_key, lockdownd_get_value, lockdownd_query_type, get_request,
}
use libiphone_debian.Lockdown.Pairing.Pair.{
  lockdownd_do_pair, lockdownd_validate_pair, pair_request,
}
use libiphone_debian.Lockdown.Strings.{
  device_public_key_text, request_text, result_text, success_text, failure_text, start_session_text,
  session_id_text, enable_session_ssl_text, start_service_text, port_text, query_type_text,
  type_text, get_value_text, value_text, validate_pair_text, stop_session_text, lockdown_type_text,
}
use libiphone_debian.Lockdown.Services.{service_request, service_answer, lockdownd_start_service}
use libiphone_debian.Lockdown.Handshake.{trusted, lockdownd_client_new_with_handshake}
use libiphone_debian.Common.{
  ◌++◌, none, some, true, false, List, Option, [], ◌∷◌, ◌≡◌, refl, ℕ, ◌≢◌,
}
use libiphone_debian.Plist.Tree.{
  Entries, Tree, Mail, tree_nodes, text, number, flag, blob, table, row, blank, next_mail, posted,
}
use libiphone_debian.Common.CString.{CString, string_eq, nul_free→IsCString, string_at}
use libiphone_debian.Common.Outcome.{done, Returns, fault, use_after_free}
use libiphone_debian.Idevice.{Device, ConnectionType}
use libiphone_debian.Plist.{entry, insert_item}
use libiphone_debian.PropertyList.{PlistClient, PlistServiceError}
use libiphone_debian.Lockdown.{
  LockdownError, LockdownClient, LockdownPort, SessionId, Userpref, UserprefError, has_session,
}
use libiphone_debian.Lockdown.Request.Check.{IsAnswer, Holds, check_result_success}
use libiphone_debian.Lockdown.Session.{
  lockdownd_client_free, lockdownd_client_new, stop_running, stop_session,
}
use libiphone_debian.Lockdown.Session.Start.Opened.{IsOpened, start_session_opens}
use libiphone_debian.Lockdown.Session.Start.Restart.{Dangles, restart_failure}
use libiphone_debian.Lockdown.Session.Reachable.{Reachable, Step}
use libiphone_debian.Lockdown.Session.Reachable.Safety.{Reachable-reads_no_freed}
use libiphone_debian.Lockdown.Services.Port.{IsStored, start_service_bounds}
use libiphone_debian.Lockdown.Classes.{str_remove_spaces}
use libiphone_debian.Lockdown.Classes.Spaces.{str_remove_spaces_removes}
use libiphone_debian.Lockdown.Handshake.Trust.{IsTrusted, handshake_trusts}

abbrev plist_client : PlistClient
plist_client = record { connection = none }

-- Every call succeeds, and what is received is what stands in the inbox.
abbrev mail_port : LockdownPort Tree Mail
mail_port = record {
  client_new = λ device port w. (PlistServiceError.success, some plist_client, w);
  client_free = λ client w. (PlistServiceError.success, w);
  send_xml = λ client t w. posted t w;
  receive = λ client before w. done (next_mail w.inbox w.outbox);
  enable_ssl = λ client w. (PlistServiceError.success, client, w);
  disable_ssl = λ client w. (PlistServiceError.success, client, w);
}

abbrev inbox : List Tree → Mail
inbox ts = record { inbox = ts; outbox = [] }

abbrev label : CString
label = b'i' ∷ b'd' ∷ []

abbrev session : CString
session = b'4' ∷ b'2' ∷ []

abbrev host_id : CString
host_id = b'H' ∷ []

abbrev client_with : SessionId → LockdownClient
client_with id = record {
  parent = some plist_client;
  ssl_enabled = false;
  session_id = id;
  uuid = none;
  label = some label;
}

-- An answer with a result, and what comes behind that.
abbrev answer_of : CString → CString → Entries → Tree
answer_of query result es = table (row request_text (text query) (row result_text (text result) es))

abbrev session_answer : Tree
session_answer =
    answer_of start_session_text success_text
      (row session_id_text (text session) (row enable_session_ssl_text (flag true) blank))

answer_of-IsAnswer :
    (query result : CString) (es : Entries)
    → IsAnswer tree_nodes (answer_of query result es) query result
unfolding entry string_eq
answer_of-IsAnswer query result es = record {
  query_held = record { node = text query; found = refl; view_node = refl };
  result_held = record { node = text result; found = refl; view_node = refl };
}

check_result_success_example :
    (lockdown_check_result tree_nodes (some session_answer) (some start_session_text)
        ≡ CheckResult.result_success
      → IsAnswer tree_nodes session_answer start_session_text success_text)
    × (IsAnswer tree_nodes session_answer start_session_text success_text
        → lockdown_check_result tree_nodes (some session_answer) (some start_session_text)
          ≡ CheckResult.result_success)
check_result_success_example = check_result_success tree_nodes session_answer start_session_text

session_held : Holds tree_nodes session_answer session_id_text session
unfolding entry string_eq
session_held = record { node = text session; found = refl; view_node = refl }

start_session_opens_example :
    Returns
      (λ s. IsOpened s.0 session true true true)
      (lockdownd_start_session tree_nodes mail_port
        (some (client_with SessionId.unset))
        (some host_id)
        true
        (inbox (session_answer ∷ [])))
unfolding entry string_eq
start_session_opens_example =
    start_session_opens tree_nodes mail_port true (client_with SessionId.unset) host_id session
      session_answer (inbox (session_answer ∷ [])) _ _ refl refl refl
      (answer_of-IsAnswer start_session_text success_text _) session_held

abbrev refusal : Tree
refusal = answer_of start_session_text failure_text blank

abbrev stopped_answer : Tree
stopped_answer = answer_of stop_session_text success_text blank

restart_failure_example : Returns (Dangles tree_nodes mail_port) (
    lockdownd_start_session tree_nodes mail_port
      (some (client_with (SessionId.live session)))
      (some host_id)
      false
      (inbox (stopped_answer ∷ (refusal ∷ []))))
unfolding stop_running stop_session lockdownd_send lockdownd_receive
restart_failure_example =
    restart_failure tree_nodes mail_port false (client_with (SessionId.live session))
      (client_with (SessionId.live session)) host_id session refusal
      (inbox (stopped_answer ∷ (refusal ∷ []))) _ _ _ refl refl refl refl
      (answer_of-IsAnswer start_session_text failure_text blank)

abbrev plain_prefs : Userpref Mail
plain_prefs = record {
  get_host_id = λ w. (some host_id, w);
  has_device_public_key = λ uuid w. true;
  set_device_public_key = λ uuid key w. w;
  remove_device_public_key = λ uuid w. w;
  get_keys_and_certs = λ w. (UserprefError.success, (1 ∷ [], 2 ∷ []), w);
  get_certs_as_pem = λ w. (UserprefError.success, (3 ∷ [], 4 ∷ []), w);
}

abbrev service_answer_tree : Tree
service_answer_tree = answer_of start_service_text success_text (row port_text (number 3000) blank)

abbrev service_world : Mail
service_world = inbox (service_answer_tree ∷ [])

started_service :
    lockdownd_start_service tree_nodes mail_port plain_prefs
      (some (client_with (SessionId.live session)))
      (some label)
      true
      service_world
    ≡ done (
      LockdownError.success,
      some 3000,
      record {
        inbox = [];
        outbox = service_request tree_nodes (client_with (SessionId.live session)) label ∷ [];
      },
    )
unfolding lockdownd_start_service lockdownd_send lockdownd_receive service_answer
    lockdown_check_result entry insert_item string_eq
started_service = refl

start_service_bounds_example :
    (has_session (SessionId.live session) ≡ true) × IsStored tree_nodes LockdownError.success 3000
start_service_bounds_example =
    start_service_bounds tree_nodes mail_port plain_prefs (client_with (SessionId.live session))
      label true LockdownError.success 3000 service_world _ started_service

abbrev spaced_name : CString
spaced_name = b'M' ∷ b' ' ∷ b'a' ∷ []

str_remove_spaces_removes_example :
    (block : List ℕ) × (str_remove_spaces (spaced_name ++ (0 ∷ 7 ∷ [])) ≡ done block)
    × (string_at block ≡ some (b'M' ∷ b'a' ∷ []))
str_remove_spaces_removes_example =
    str_remove_spaces_removes spaced_name (7 ∷ []) (nul_free→IsCString spaced_name refl)

abbrev two_answers : Mail
two_answers = inbox (session_answer ∷ (stopped_answer ∷ []))

abbrev after_start : LockdownClient
after_start = record (client_with (SessionId.live session)) { ssl_enabled = true }

abbrev started_world : Mail
started_world = record {
  inbox = stopped_answer ∷ [];
  outbox = start_request tree_nodes mail_port (client_with SessionId.unset) host_id ∷ [];
}

reached_client : Reachable tree_nodes mail_port after_start started_world
unfolding lockdownd_client_new lockdownd_start_session stop_running request_session lockdownd_send
    lockdownd_receive answered_start accept_session lockdown_check_result entry string_eq
reached_client =
    Reachable.called (client_with SessionId.unset) after_start two_answers started_world
      (Reachable.created none (some label) (client_with SessionId.unset) two_answers two_answers
        refl)
      (Step.start (client_with SessionId.unset) (some host_id) true
        (record {
          result = LockdownError.success;
          client = after_start;
          session_id = some session;
          use_ssl = some true;
        })
        two_answers started_world refl refl)

quiet_mail :
    (p : Option PlistClient) (w : Mail) → mail_port.receive p (some none) w ≢ fault use_after_free
quiet_mail p w e = cc

Reachable-reads_no_freed_example :
    (SessionId.live session ≢ SessionId.freed)
    × (lockdownd_client_free tree_nodes mail_port (some after_start) started_world
        ≢ fault use_after_free)
Reachable-reads_no_freed_example =
    Reachable-reads_no_freed tree_nodes mail_port quiet_mail after_start started_world
      reached_client

abbrev plain_crypto : PairCrypto
plain_crypto = record {
  pem_decode = λ pem. some pem;
  read_key = λ der. some (der, der);
  import_rsa = λ modulus exponent. some modulus;
  device_cert = λ key root_key root_cert. key;
}

abbrev handshake_world : Mail
handshake_world = inbox (
    answer_of query_type_text success_text (row type_text (text lockdown_type_text) blank)
    ∷ (answer_of get_value_text success_text (row value_text (blob (9 ∷ [])) blank)
        ∷ (answer_of validate_pair_text success_text blank ∷ (session_answer ∷ []))))

abbrev phone : Device
phone = record { uuid = b'u' ∷ []; conn_type = ConnectionType.usbmuxd; conn_data = 1 }

abbrev handshaken : LockdownClient
handshaken = record (after_start) { uuid = some (b'u' ∷ []) }

abbrev known_phone : LockdownClient
known_phone = record (client_with SessionId.unset) { uuid = some (b'u' ∷ []) }

abbrev plain_record : Tree
plain_record =
    pair_record_dict tree_nodes plain_prefs plain_crypto
      (record { device_cert = 9 ∷ []; host_cert = 4 ∷ []; root_cert = 3 ∷ [] }) host_id

abbrev handshake_end : Mail
handshake_end = record {
  inbox = [];
  outbox =
      start_request tree_nodes mail_port known_phone host_id
      ∷ (pair_request tree_nodes mail_port plain_prefs plain_crypto known_phone validate_pair_text
            (some plain_record)
          ∷ (get_request tree_nodes mail_port known_phone none (some device_public_key_text)
              ∷ (plain_request tree_nodes known_phone query_type_text ∷ [])));
}

handshake_run :
    lockdownd_client_new_with_handshake tree_nodes mail_port plain_prefs plain_crypto
      (some phone)
      true
      (some label)
      handshake_world
    ≡ done (LockdownError.success, some handshaken, handshake_end)
unfolding lockdownd_client_new_with_handshake lockdownd_client_new trusted lockdownd_start_session
    stop_running request_session lockdownd_send lockdownd_receive answered_start accept_session
    lockdown_check_result entry string_eq insert_item lockdownd_validate_pair lockdownd_do_pair
    lockdownd_query_type lockdownd_get_value lockdownd_get_device_public_key
    generate_pair_record_plist lockdownd_gen_pair_cert idevice_get_uuid
handshake_run = refl

handshake_trusts_example :
    IsTrusted tree_nodes mail_port plain_prefs plain_crypto handshaken handshake_end
handshake_trusts_example =
    handshake_trusts tree_nodes mail_port plain_prefs plain_crypto (some phone) true (some label)
      handshaken handshake_world handshake_end handshake_run
