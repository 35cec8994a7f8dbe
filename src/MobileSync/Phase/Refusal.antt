-- ===== src/MobileSync/Phase/Refusal.antt =====
-- src/mobilesync.c: the calls that a phase does not allow.
use libiphone_debian.Common.{
  ◌∙◌, none, some, true, false, Bool, Option, ℕ, ◌≡◌, refl, sym, ap, inl, inr, ◌⊎◌, Bool-cases,
  ◌&&◌, not, is_some,
}
use libiphone_debian.Common.CString.{CString}
use libiphone_debian.Common.Outcome.{done}
use libiphone_debian.Plist.{PlistNodes}
use libiphone_debian.DeviceLink.{PlistPort, DeviceLinkClient}
use libiphone_debian.MobileSync.{MobilesyncError, MobilesyncClient, SyncDirection, Anchors}
use libiphone_debian.MobileSync.Session.{start_session, finish_session, cancel_session}
use libiphone_debian.MobileSync.Changes.{
  ready_to_send, is_dict, mobilesync_get_all_records_from_device,
  mobilesync_get_changes_from_device, mobilesync_get_records, mobilesync_receive_changes,
  mobilesync_clear_all_records_on_device, mobilesync_acknowledge_changes_from_device,
  mobilesync_send_changes, mobilesync_remap_identifiers,
}
use libiphone_debian.MobileSync.Phase.{Phase, Call, phase_of, can_start, run}
use libiphone_debian.MobileSync.Phase.Refinement.{client_of, anchors_of}

abbrev is_idle : Phase → Bool
is_idle Phase.idle = true
is_idle _ = false

abbrev is_from_device : Phase → Bool
is_from_device Phase.from_device = true
is_from_device _ = false

abbrev is_to_device : Phase → Bool
is_to_device Phase.to_device = true
is_to_device _ = false

module _ {P W : Type 0} (nodes : PlistNodes P) (port : PlistPort P W) where
  -- The entities are a dictionary.
  abbrev are_entities : Option P → Bool
  are_entities none = false
  are_entities (some p) = is_dict (nodes.view p)

  -- The calls that a phase allows: a start, with complete arguments, outside of a session; changes to
  -- the device and the mapping of their identifiers after the device was ready; the rest in a session.
  abbrev pub allows : Call P → Phase → Bool
  allows (Call.start data_class anchors version want_type want_version) phase =
      is_idle phase && can_start data_class anchors
  allows (Call.cancel reason) phase = not (is_idle phase) && is_some reason
  allows Call.ready_to_send_changes phase = is_from_device phase
  allows (Call.send_changes entities is_last_record actions) phase =
      are_entities entities && is_to_device phase
  allows Call.remap_identifiers phase = is_to_device phase
  allows _ phase = not (is_idle phase)

  -- The call is refused: nothing is sent and nothing received, and the client is as it was.
  pub record IsRefused (call : Call P) (client : MobilesyncClient) (w : W) : Type 0 where
    pub error : MobilesyncError
    pub nothing_done : run nodes port call client w ≡ done (error, client, w)
    pub is_refusal :
        (error ≡ MobilesyncError.invalid_arg) ⊎ (error ≡ MobilesyncError.wrong_direction)

  bad_argument :
      (call : Call P) (client : MobilesyncClient) (w : W)
      → run nodes port call client w ≡ done (MobilesyncError.invalid_arg, client, w)
      → IsRefused call client w
  bad_argument call client w h = record {
    error = MobilesyncError.invalid_arg;
    nothing_done = h;
    is_refusal = inl refl;
  }

  bad_direction :
      (call : Call P) (client : MobilesyncClient) (w : W)
      → run nodes port call client w ≡ done (MobilesyncError.wrong_direction, client, w)
      → IsRefused call client w
  bad_direction call client w h = record {
    error = MobilesyncError.wrong_direction;
    nothing_done = h;
    is_refusal = inr refl;
  }

  start_anchored_refused :
      (parent : Option DeviceLinkClient) (direction : SyncDirection) (session : Option CString)
      (c : CString) (device computer : Option CString) (version : ℕ) (want_type want_version : Bool)
      (w : W)
      → allows
          (Call.start
            (some c)
            (some (anchors_of nodes port device computer))
            version
            want_type
            want_version)
          (phase_of (client_of nodes port parent direction session))
        ≡ false
      → run nodes port
          (Call.start
            (some c)
            (some (anchors_of nodes port device computer))
            version
            want_type
            want_version)
          (client_of nodes port parent direction session)
          w
        ≡ done (MobilesyncError.invalid_arg, client_of nodes port parent direction session, w)
  unfolding run start_session
  start_anchored_refused parent direction none c device (some a) version want_type want_version w
        h =
      cc
  start_anchored_refused parent direction none c device none version want_type want_version w h =
      refl
  start_anchored_refused parent direction (some s) c device none version want_type want_version w
        h =
      refl
  start_anchored_refused parent direction (some s) c device (some a) version want_type want_version
        w h =
      refl

  -- A start in a session, and one without a data class, anchors, or the computer's anchor.
  start_refused :
      (parent : Option DeviceLinkClient) (direction : SyncDirection)
      (session data_class : Option CString) (anchors : Option Anchors) (version : ℕ)
      (want_type want_version : Bool) (w : W)
      → allows
          (Call.start data_class anchors version want_type want_version)
          (phase_of (client_of nodes port parent direction session))
        ≡ false
      → run nodes port
          (Call.start data_class anchors version want_type want_version)
          (client_of nodes port parent direction session)
          w
        ≡ done (MobilesyncError.invalid_arg, client_of nodes port parent direction session, w)
  unfolding run start_session
  start_refused parent direction session none anchors version want_type want_version w h = refl
  start_refused parent direction session (some c) none version want_type want_version w h = refl
  start_refused parent direction session (some c) (some anchors) version want_type want_version w
        h =
      start_anchored_refused parent direction session c anchors.device_anchor
        anchors.computer_anchor version want_type want_version w h

  send_changes-IsRefused :
      (parent : Option DeviceLinkClient) (direction : SyncDirection) (session : Option CString)
      (entities : P) (is_last_record : Bool) (actions : Option P) (w : W)
      → is_dict (nodes.view entities)
          && is_to_device (phase_of (client_of nodes port parent direction session))
        ≡ false
      → IsRefused
          (Call.send_changes (some entities) is_last_record actions)
          (client_of nodes port parent direction session)
          w
  unfolding run mobilesync_send_changes
  send_changes-IsRefused parent direction none entities is_last_record actions w h =
      bad_argument _ (client_of nodes port parent direction none) w refl
  send_changes-IsRefused parent SyncDirection.device_to_computer (some c) entities is_last_record
        actions w h =
      elim (Bool-cases (is_dict (nodes.view entities))) [
        | inl e ↦ bad_direction _ _ w (rw e refl)
        | inr e ↦ bad_argument _ _ w (rw e refl)
      ]
  send_changes-IsRefused parent SyncDirection.computer_to_device (some c) entities is_last_record
        actions w h =
      elim (Bool-cases (is_dict (nodes.view entities))) [
        | inl e ↦ let both : true ≡ false = ap (λ b. b && true) (sym e) ∙ h in cc
        | inr e ↦ bad_argument _ _ w (rw e refl)
      ]

  refused :
      (call : Call P) (parent : Option DeviceLinkClient) (direction : SyncDirection)
      (session : Option CString) (w : W)
      → allows call (phase_of (client_of nodes port parent direction session)) ≡ false
      → IsRefused call (client_of nodes port parent direction session) w
  unfolding run finish_session cancel_session mobilesync_get_all_records_from_device
      mobilesync_get_changes_from_device mobilesync_get_records mobilesync_receive_changes
      mobilesync_clear_all_records_on_device mobilesync_acknowledge_changes_from_device
      ready_to_send mobilesync_send_changes mobilesync_remap_identifiers
  refused (Call.start data_class anchors version want_type want_version) parent direction session w
        h =
      bad_argument _ _ w (
        start_refused parent direction session data_class anchors version want_type want_version w
          h)
  refused (Call.send_changes (some entities) is_last_record actions) parent direction session w h =
      send_changes-IsRefused parent direction session entities is_last_record actions w h
  refused (Call.send_changes none is_last_record actions) parent direction session w h =
      bad_argument _ _ w refl
  refused (Call.cancel none) parent direction none w h = bad_argument _ _ w refl
  refused (Call.cancel none) parent direction (some c) w h = bad_argument _ _ w refl
  refused (Call.cancel (some r)) parent direction none w h = bad_argument _ _ w refl
  refused (Call.cancel (some r)) parent SyncDirection.device_to_computer (some c) w h = absurd (cc)
  refused (Call.cancel (some r)) parent SyncDirection.computer_to_device (some c) w h = absurd (cc)
  refused Call.ready_to_send_changes parent direction none w h = bad_argument _ _ w refl
  refused Call.ready_to_send_changes parent SyncDirection.device_to_computer (some c) w h =
      absurd (cc)
  refused Call.ready_to_send_changes parent SyncDirection.computer_to_device (some c) w h =
      bad_direction _ _ w refl
  refused Call.remap_identifiers parent direction none w h = bad_argument _ _ w refl
  refused Call.remap_identifiers parent SyncDirection.device_to_computer (some c) w h =
      bad_direction _ _ w refl
  refused Call.remap_identifiers parent SyncDirection.computer_to_device (some c) w h = absurd (cc)
  refused Call.finish parent direction none w h = bad_argument _ _ w refl
  refused Call.finish parent SyncDirection.device_to_computer (some c) w h = absurd (cc)
  refused Call.finish parent SyncDirection.computer_to_device (some c) w h = absurd (cc)
  refused Call.get_all_records parent direction none w h = bad_argument _ _ w refl
  refused Call.get_all_records parent SyncDirection.device_to_computer (some c) w h = absurd (cc)
  refused Call.get_all_records parent SyncDirection.computer_to_device (some c) w h = absurd (cc)
  refused Call.get_changes parent direction none w h = bad_argument _ _ w refl
  refused Call.get_changes parent SyncDirection.device_to_computer (some c) w h = absurd (cc)
  refused Call.get_changes parent SyncDirection.computer_to_device (some c) w h = absurd (cc)
  refused (Call.receive_changes actions_test) parent direction none w h = bad_argument _ _ w refl
  refused (Call.receive_changes actions_test) parent SyncDirection.device_to_computer (some c) w h =
      absurd (cc)
  refused (Call.receive_changes actions_test) parent SyncDirection.computer_to_device (some c) w h =
      absurd (cc)
  refused Call.clear_all_records parent direction none w h = bad_argument _ _ w refl
  refused Call.clear_all_records parent SyncDirection.device_to_computer (some c) w h = absurd (cc)
  refused Call.clear_all_records parent SyncDirection.computer_to_device (some c) w h = absurd (cc)
  refused Call.acknowledge_changes parent direction none w h = bad_argument _ _ w refl
  refused Call.acknowledge_changes parent SyncDirection.device_to_computer (some c) w h =
      absurd (cc)
  refused Call.acknowledge_changes parent SyncDirection.computer_to_device (some c) w h =
      absurd (cc)

  -- A call that the phase of the client does not allow is refused: it returns INVALID_ARG or
  -- WRONG_DIRECTION, nothing is sent to the device and nothing received, and the client stays as it
  -- was. In particular changes are sent only after the device was ready for them.
  pub IsRefused-unless_allowed :
      (call : Call P) (client : MobilesyncClient) (w : W)
      → allows call (phase_of client) ≡ false
      → IsRefused call client w
  IsRefused-unless_allowed call client w h =
      refused call client.parent client.direction client.data_class w h
