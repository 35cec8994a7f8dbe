-- ===== src/FileRelay/Answer.antt =====
-- src/file_relay.c: the port that the property list service is to the client, and what a connection that
-- is handed out rests on.
use libiphone_debian.Common.{
  inr, ap, inl, ◌≢◌, Bool-cases, List, Option, ℕ, none, some, [], ◌∷◌, ◌≡◌, refl, arith,
}
use libiphone_debian.FileRelay.{
  handed_out, named_error, FileRelayError, RelayPort, acknowledged, answer_error, answered,
  judge_answer, request_dict, requested, file_relay_request_sources,
}
use libiphone_debian.Common.Outcome.{done_injective, Outcome, done, fault, running, ◌>>=◌}
use libiphone_debian.Common.CString.{CString, string_eq, string_eq→eq}
use libiphone_debian.Channel.{Channel}
use libiphone_debian.Idevice.{Connection}
use libiphone_debian.Plist.{PlistNodes, get_item, string_value, string_of}
use libiphone_debian.PropertyList.{Libplist, PlistClient, PlistServiceError}
use libiphone_debian.PropertyList.Send.{property_list_service_send_xml_plist}
use libiphone_debian.PropertyList.Receive.{property_list_service_receive_plist_with_timeout}
use libiphone_debian.FileRelay.Strings.{error_text, status_text, acknowledged_text}

-- The property list service as the port of the client: its own functions.
pub relay_port :
    {P W : Type 0} → Libplist P → (Connection → Channel W) → (ℕ → List ℕ) → RelayPort P W
relay_port lib ch fresh = record {
  send_xml = λ client plist w. property_list_service_send_xml_plist lib ch client plist w;
  receive_with_timeout = λ client timeout w.
      property_list_service_receive_plist_with_timeout lib ch fresh client (some none) timeout w;
}

module _ {P W : Type 0} (nodes : PlistNodes P) (port : RelayPort P W) where
  -- The request for the sources was sent, and the answer has no error and acknowledges it.
  pub data IsAcknowledged (parent : PlistClient) (sources : List CString) (w w2 : W) : Type 0 where
    answer :
        (w1 : W) (dict : P)
        → port.send_xml (some parent) (some (request_dict nodes port sources)) w
          ≡ (PlistServiceError.success, w1)
        → port.receive_with_timeout (some parent) 60000 w1
          ≡ done (PlistServiceError.success, some dict, w2)
        → get_item nodes dict error_text ≡ none
        → string_value nodes (get_item nodes dict status_text) ≡ some acknowledged_text
        → IsAcknowledged parent sources w w2

  acknowledged-success :
      (ack : Option CString)
      → acknowledged ack ≡ FileRelayError.success
      → ack ≡ some acknowledged_text
  acknowledged-success none e = cc
  acknowledged-success (some s) e = elim (Bool-cases (string_eq s acknowledged_text)) [
    | inl t ↦ ap some (string_eq→eq s acknowledged_text t)
    | inr f ↦ ground (arith, e, f)
  ]

  named_error_fails : (s : Option CString) → named_error s ≢ FileRelayError.success
  named_error_fails none e = cc
  named_error_fails (some s) e = ground (arith, e)

  answer_error-success :
      (found status : Option P)
      → answer_error nodes port found status ≡ FileRelayError.success
      → (found ≡ none) × (string_value nodes status ≡ some acknowledged_text)
  answer_error-success (some p) status e = absurd (named_error_fails (string_of (nodes.view p)) e)
  answer_error-success none none e = cc
  answer_error-success none (some status) e = (refl, acknowledged-success _ e)

  handed_out-success :
      (c connection : Option Connection) (e : FileRelayError)
      → handed_out nodes port c e ≡ (FileRelayError.success, connection)
      → (e ≡ FileRelayError.success) × (connection ≡ c)
  handed_out-success c connection FileRelayError.success h = (refl, cc)
  handed_out-success c connection FileRelayError.invalid_arg h = cc
  handed_out-success c connection FileRelayError.plist_error h = cc
  handed_out-success c connection FileRelayError.mux_error h = cc
  handed_out-success c connection FileRelayError.invalid_source h = cc
  handed_out-success c connection FileRelayError.staging_empty h = cc
  handed_out-success c connection FileRelayError.unknown_error h = cc

  -- What the second half of the request has received.
  record IsAnswered (parent : PlistClient) (o : Outcome (PlistServiceError × Option P × W))
      (connection : Option Connection) (w2 : W) : Type 0 where
    dict : P
    came : o ≡ done (PlistServiceError.success, some dict, w2)
    judged : judge_answer nodes port dict ≡ FileRelayError.success
    own : connection ≡ parent.connection

  answered_dict :
      (parent : PlistClient) (d : P) (connection : Option Connection) (w w2 : W)
      → answered nodes port parent (PlistServiceError.success, some d, w)
        ≡ (FileRelayError.success, connection, w2)
      → IsAnswered parent (done (PlistServiceError.success, some d, w)) connection w2
  answered_dict parent d connection w w2 h =
      let pair : handed_out nodes port parent.connection (judge_answer nodes port d)
          ≡ (FileRelayError.success, connection) =
        ap (λ x. (x.0, x.1)) h in
      let same : w ≡ w2 = ap (λ x. x.2) h in
      let r = handed_out-success _ connection _ pair in
      record {
        dict = d;
        came = ap (λ u. done (PlistServiceError.success, some d, u)) same;
        judged = r.0;
        own = r.1;
      }

  answered-success :
      (parent : PlistClient) (o : Outcome (PlistServiceError × Option P × W))
      (connection : Option Connection) (w2 : W)
      → (o >>= λ x. done (answered nodes port parent x))
        ≡ done (FileRelayError.success, connection, w2)
      → IsAnswered parent o connection w2
  answered-success parent (done (PlistServiceError.success, none, w)) connection w2 h = cc
  answered-success parent (done (PlistServiceError.success, some d, w)) connection w2 h =
      answered_dict parent d connection w w2 (done_injective _ _ h)
  answered-success parent (done (PlistServiceError.invalid_arg, none, w)) connection w2 h = cc
  answered-success parent (done (PlistServiceError.plist_error, none, w)) connection w2 h = cc
  answered-success parent (done (PlistServiceError.mux_error, none, w)) connection w2 h = cc
  answered-success parent (done (PlistServiceError.ssl_error, none, w)) connection w2 h = cc
  answered-success parent (done (PlistServiceError.unknown_error, none, w)) connection w2 h = cc
  answered-success parent (done (PlistServiceError.invalid_arg, some d, w)) connection w2 h = cc
  answered-success parent (done (PlistServiceError.plist_error, some d, w)) connection w2 h = cc
  answered-success parent (done (PlistServiceError.mux_error, some d, w)) connection w2 h = cc
  answered-success parent (done (PlistServiceError.ssl_error, some d, w)) connection w2 h = cc
  answered-success parent (done (PlistServiceError.unknown_error, some d, w)) connection w2 h = cc
  answered-success parent (fault x) connection w2 h = cc
  answered-success parent running connection w2 h = cc

  IsAcknowledged-answer :
      (parent : PlistClient) (sources : List CString) (w w1 w2 : W) (connection : Option Connection)
      → port.send_xml (some parent) (some (request_dict nodes port sources)) w
        ≡ (PlistServiceError.success, w1)
      → IsAnswered parent (port.receive_with_timeout (some parent) 60000 w1) connection w2
      → IsAcknowledged parent sources w w2 × (connection ≡ parent.connection)
  unfolding judge_answer
  IsAcknowledged-answer parent sources w w1 w2 connection sent a =
      let r = answer_error-success _ _ a.judged in
      (IsAcknowledged.answer w1 a.dict sent a.came r.0 r.1, a.own)

  requested-success :
      (parent : PlistClient) (sources : List CString) (w w2 : W) (connection : Option Connection)
      (x : PlistServiceError × W)
      → port.send_xml (some parent) (some (request_dict nodes port sources)) w ≡ x
      → requested nodes port parent x ≡ done (FileRelayError.success, connection, w2)
      → IsAcknowledged parent sources w w2 × (connection ≡ parent.connection)
  requested-success parent sources w w2 connection (PlistServiceError.success, w1) sent h =
      IsAcknowledged-answer parent sources w w1 w2 connection sent
        (answered-success parent _ connection w2 h)
  requested-success parent sources w w2 connection (PlistServiceError.invalid_arg, w1) sent h = cc
  requested-success parent sources w w2 connection (PlistServiceError.plist_error, w1) sent h = cc
  requested-success parent sources w w2 connection (PlistServiceError.mux_error, w1) sent h = cc
  requested-success parent sources w w2 connection (PlistServiceError.ssl_error, w1) sent h = cc
  requested-success parent sources w w2 connection (PlistServiceError.unknown_error, w1) sent h = cc

  -- If file_relay_request_sources returns success for a client with a parent, then the request for
  -- these sources was sent to the parent with success, the dictionary received after it has no
  -- "Error" and "Acknowledged" for its "Status", and *connection holds the parent's connection.
  pub request_sources-IsAcknowledged :
      (parent : PlistClient) (sources : List CString) (before connection : Option Connection)
      (w w2 : W)
      → file_relay_request_sources nodes port
          (some (record { parent = some parent }))
          (some sources)
          before
          w
        ≡ done (FileRelayError.success, connection, w2)
      → IsAcknowledged parent sources w w2 × (connection ≡ parent.connection)
  unfolding file_relay_request_sources
  request_sources-IsAcknowledged parent [] before connection w w2 h = cc
  request_sources-IsAcknowledged parent (source ∷ sources) before connection w w2 h =
      requested-success parent (source ∷ sources) w w2 connection _ refl h
