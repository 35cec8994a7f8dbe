-- ===== src/MobileSync/Phase/Refinement.antt =====
-- src/mobilesync.c: the client's state against the phases.
use libiphone_debian.MobileSync.Changes.{
  mobilesync_remap_identifiers, mobilesync_clear_all_records_on_device, mobilesync_receive_changes,
  ready_to_send, ready_left,
}
use libiphone_debian.MobileSync.Phase.{
  same, same_but, without_stored, Phase, Call, phase_of, can_start, next, next_all, run, run_all,
}
use libiphone_debian.MobileSync.Session.{
  start_left, class_message, finish_left, start_session, start_message, finish_session,
  cancel_session,
}
use libiphone_debian.MobileSync.{
  mobilesync_error, MobilesyncError, MobilesyncClient, SyncDirection, Anchors, is_success,
}
use libiphone_debian.MobileSync.Strings.{
  preparing_text, device_ready_to_receive_changes_text, finish_session_on_device_text,
}
use libiphone_debian.DeviceLink.Service.{device_link_service_send_ping}
use libiphone_debian.MobileSync.Transfer.{
  expect, unless_cancelled, respond, exchange_message, mobilesync_receive,
}
use libiphone_debian.Common.Outcome.{IfDone-map, done, IfDone, IfDone-bind, IfDone-done}
use libiphone_debian.DeviceLink.{DeviceLinkClient, PlistPort}
use libiphone_debian.Common.{
  none, some, false, Bool, List, Option, ℕ, [], ◌∷◌, ◌≡◌, refl, sym, ap, ◌∙◌, inl, inr, Bool-cases,
}
use libiphone_debian.Common.CString.{CString}
use libiphone_debian.Plist.{PlistNodes}

next_start_refused :
    (P : Type 0) (data_class : Option CString) (anchors : Option Anchors) (version : ℕ)
    (want_type want_version : Bool) (e : MobilesyncError) (phase : Phase)
    → can_start data_class anchors ≡ false
    → next {P = P} (Call.start data_class anchors version want_type want_version) e phase ≡ phase
unfolding next
next_start_refused P data_class anchors version want_type want_version e Phase.idle h = rw h refl
next_start_refused P data_class anchors version want_type want_version e Phase.from_device h = refl
next_start_refused P data_class anchors version want_type want_version e Phase.to_device h = refl

module _ {P W : Type 0} (nodes : PlistNodes P) (port : PlistPort P W) where
  -- The result of a call leaves the phase that the call leads to.
  abbrev Leads : Call P → MobilesyncClient → MobilesyncError × MobilesyncClient × W → Type 0
  Leads call client (e, client', w) = phase_of client' ≡ next call e (phase_of client)

  abbrev pub client_of : Option DeviceLinkClient → SyncDirection → Option CString → MobilesyncClient
  client_of parent direction data_class = record {
    parent = parent;
    direction = direction;
    data_class = data_class;
  }

  ready_left-Leads :
      (parent : Option DeviceLinkClient) (data_class : CString) (x : MobilesyncError × Option P × W)
      → Leads Call.ready_to_send_changes
          (client_of parent SyncDirection.device_to_computer (some data_class))
          (ready_left nodes port
            (client_of parent SyncDirection.device_to_computer (some data_class))
            x)
  unfolding next
  ready_left-Leads parent data_class (e, msg, w) =
      let ret =
        respond nodes port
          (unless_cancelled (expect device_ready_to_receive_changes_text MobilesyncError.not_ready))
          e msg in
      let ping = device_link_service_send_ping nodes port parent (some preparing_text) w in
      elim (Bool-cases (is_success ret)) [
        | inr h ↦ rw (h, h) refl
        | inl h ↦ elim (Bool-cases (is_success (mobilesync_error ping.0))) [
          | inl k ↦ rw (h, k) refl
          | inr k ↦ rw (h, k, k) refl
        ]
      ]

  ready-Leads :
      (parent : Option DeviceLinkClient) (direction : SyncDirection) (data_class : Option CString)
      (w : W)
      → IfDone
          (Leads Call.ready_to_send_changes (client_of parent direction data_class))
          (ready_to_send nodes port (client_of parent direction data_class) w)
  unfolding ready_to_send next
  ready-Leads parent direction none w = refl
  ready-Leads parent SyncDirection.computer_to_device (some data_class) w = refl
  ready-Leads parent SyncDirection.device_to_computer (some data_class) w =
      let client = client_of parent SyncDirection.device_to_computer (some data_class) in
      IfDone-map (Leads Call.ready_to_send_changes client) (ready_left nodes port client)
        (mobilesync_receive nodes port (some client) (some none) w)
        (ready_left-Leads parent data_class)

  finish-Leads :
      (parent : Option DeviceLinkClient) (direction : SyncDirection) (data_class : Option CString)
      (w : W)
      → IfDone
          (Leads Call.finish (client_of parent direction data_class))
          (finish_session nodes port (client_of parent direction data_class) w)
  unfolding finish_session next
  finish-Leads parent direction none w = refl
  finish-Leads parent direction (some data_class) w =
      let client = client_of parent direction (some data_class) in
      IfDone-map (Leads Call.finish client) (finish_left nodes port client)
        (exchange_message nodes port client
          (class_message nodes port finish_session_on_device_text data_class) w)
        (λ x. refl)

  cancel-Leads :
      (parent : Option DeviceLinkClient) (direction : SyncDirection)
      (data_class reason : Option CString) (w : W)
      → Leads
          (Call.cancel reason)
          (client_of parent direction data_class)
          (cancel_session nodes port (client_of parent direction data_class) reason w)
  unfolding cancel_session next
  cancel-Leads parent direction none none w = refl
  cancel-Leads parent direction none (some reason) w = refl
  cancel-Leads parent direction (some data_class) none w = refl
  cancel-Leads parent direction (some data_class) (some reason) w = refl

  abbrev pub anchors_of : Option CString → Option CString → Anchors
  anchors_of device_anchor computer_anchor = record {
    device_anchor = device_anchor;
    computer_anchor = computer_anchor;
  }

  start_anchored :
      (parent : Option DeviceLinkClient) (direction : SyncDirection) (session : Option CString)
      (data_class : CString) (device_anchor computer_anchor : Option CString) (version : ℕ)
      (want_type want_version : Bool) (w : W)
      → IfDone
          (λ x.
            Leads
              (Call.start
                (some data_class)
                (some (anchors_of device_anchor computer_anchor))
                version
                want_type
                want_version)
              (client_of parent direction session)
              (without_stored nodes port x))
          (start_session nodes port
            (client_of parent direction session)
            (some data_class)
            (some (anchors_of device_anchor computer_anchor))
            version
            want_type
            want_version
            w)
  unfolding start_session next
  start_anchored parent direction none data_class device (some computer) version want_type
        want_version w =
      let client = client_of parent direction none in
      IfDone-map
        (λ x.
          Leads
            (Call.start (some data_class) (some (anchors_of device (some computer))) version
              want_type want_version)
            client (without_stored nodes port x))
        (start_left nodes port client data_class want_type want_version)
        (exchange_message nodes port client
          (start_message nodes port data_class device computer version) w)
        (λ x. refl)
  start_anchored parent direction none data_class device none version want_type want_version w =
      refl
  start_anchored parent SyncDirection.device_to_computer (some c) data_class device none version
        want_type want_version w =
      refl
  start_anchored parent SyncDirection.computer_to_device (some c) data_class device none version
        want_type want_version w =
      refl
  start_anchored parent SyncDirection.device_to_computer (some c) data_class device (some computer)
        version want_type want_version w =
      refl
  start_anchored parent SyncDirection.computer_to_device (some c) data_class device (some computer)
        version want_type want_version w =
      refl

  start-Leads :
      (parent : Option DeviceLinkClient) (direction : SyncDirection)
      (session data_class : Option CString) (anchors : Option Anchors) (version : ℕ)
      (want_type want_version : Bool) (w : W)
      → IfDone
          (λ x.
            Leads
              (Call.start data_class anchors version want_type want_version)
              (client_of parent direction session)
              (without_stored nodes port x))
          (start_session nodes port
            (client_of parent direction session)
            data_class
            anchors
            version
            want_type
            want_version
            w)
  unfolding start_session
  start-Leads parent direction session none anchors version want_type want_version w = sym (
      next_start_refused P none anchors version want_type want_version MobilesyncError.invalid_arg
        (phase_of (client_of parent direction session)) refl)
  start-Leads parent direction session (some data_class) none version want_type want_version w =
      sym (
        next_start_refused P (some data_class) none version want_type want_version
          MobilesyncError.invalid_arg (phase_of (client_of parent direction session)) refl)
  start-Leads parent direction session (some data_class) (some anchors) version want_type
        want_version w =
      start_anchored parent direction session data_class anchors.device_anchor
        anchors.computer_anchor version want_type want_version w

  run-Leads :
      (call : Call P) (client : MobilesyncClient) (w : W)
      → IfDone (Leads call client) (run nodes port call client w)
  unfolding run next
  run-Leads (Call.start data_class anchors version want_type want_version) client w =
      let m = start_session nodes port client data_class anchors version want_type want_version w in
      IfDone-bind _ (Leads (Call.start data_class anchors version want_type want_version) client) m
        _
        (start-Leads client.parent client.direction client.data_class data_class anchors version
          want_type want_version w)
        (λ x h. h)
  run-Leads Call.finish client w = finish-Leads client.parent client.direction client.data_class w
  run-Leads (Call.cancel reason) client w =
      cancel-Leads client.parent client.direction client.data_class reason w
  run-Leads Call.get_all_records client w = refl
  run-Leads Call.get_changes client w = refl
  run-Leads (Call.receive_changes actions_test) client w =
      IfDone-map (Leads (Call.receive_changes actions_test) client) (same_but nodes port client)
        (mobilesync_receive_changes nodes port (some client) actions_test w) (λ x. refl)
  run-Leads Call.clear_all_records client w =
      IfDone-map (Leads Call.clear_all_records client) (same nodes port client)
        (mobilesync_clear_all_records_on_device nodes port (some client) w) (λ x. refl)
  run-Leads Call.acknowledge_changes client w = refl
  run-Leads Call.ready_to_send_changes client w =
      ready-Leads client.parent client.direction client.data_class w
  run-Leads (Call.send_changes entities is_last_record actions) client w = refl
  run-Leads Call.remap_identifiers client w =
      IfDone-map (Leads Call.remap_identifiers client) (same_but nodes port client)
        (mobilesync_remap_identifiers nodes port (some client) w) (λ x. refl)

  abbrev LeadsAll :
      List (Call P) → MobilesyncClient → List MobilesyncError × MobilesyncClient × W → Type 0
  LeadsAll calls client (es, client', w) = phase_of client' ≡ next_all calls es (phase_of client)

  run_all-LeadsAll :
      (calls : List (Call P)) (client : MobilesyncClient) (w : W)
      → IfDone (LeadsAll calls client) (run_all nodes port calls client w)
  unfolding run_all next_all
  run_all-LeadsAll [] client w = refl
  run_all-LeadsAll (call ∷ calls) client w =
      IfDone-bind (Leads call client) (LeadsAll (call ∷ calls) client)
        (run nodes port call client w) _ (run-Leads call client w)
        (λ (e, client', w') h.
          IfDone-bind (LeadsAll calls client') (LeadsAll (call ∷ calls) client)
            (run_all nodes port calls client' w') _ (run_all-LeadsAll calls client' w')
            (λ x k. k ∙ ap (next_all calls x.0) h))

  -- A client refines the phases of a session: if a sequence of public calls returns, then the phase that
  -- its data class and its direction stand for is the one that the rules for the phases lead to, from
  -- the calls and their results alone.
  pub run_all-next_all :
      (calls : List (Call P)) (client client' : MobilesyncClient) (es : List MobilesyncError)
      (w w' : W)
      → run_all nodes port calls client w ≡ done (es, client', w')
      → phase_of client' ≡ next_all calls es (phase_of client)
  run_all-next_all calls client client' es w w' h =
      IfDone-done (LeadsAll calls client) (run_all nodes port calls client w) (es, client', w') h
        (run_all-LeadsAll calls client w)
