-- ===== src/MobileSync/Phase.antt =====
-- src/mobilesync.c: the phases of a session, and the calls on a client.
pub mod Refinement
pub mod Refusal
use libiphone_debian.Common.{none, some, true, false, Bool, List, Option, if◌then◌else◌, ℕ, [], ◌∷◌}
use libiphone_debian.Common.CString.{CString}
use libiphone_debian.Common.Outcome.{Outcome, done, ◌>>=◌}
use libiphone_debian.Plist.{PlistNodes, Node}
use libiphone_debian.DeviceLink.{PlistPort}
use libiphone_debian.MobileSync.{
  MobilesyncError, MobilesyncClient, SyncDirection, Anchors, is_success,
}
use libiphone_debian.MobileSync.Session.{start_session, finish_session, cancel_session, SyncStart}
use libiphone_debian.MobileSync.Changes.{
  mobilesync_get_all_records_from_device, mobilesync_get_changes_from_device,
  mobilesync_receive_changes, mobilesync_clear_all_records_on_device,
  mobilesync_acknowledge_changes_from_device, ready_to_send, mobilesync_send_changes,
  mobilesync_remap_identifiers, is_dict, Changes,
}

-- What a client may do next.
pub data Phase : Type 0 where
  idle : Phase
  from_device : Phase
  to_device : Phase

abbrev phase_in : Option CString → SyncDirection → Phase
phase_in none direction = Phase.idle
phase_in (some data_class) SyncDirection.device_to_computer = Phase.from_device
phase_in (some data_class) SyncDirection.computer_to_device = Phase.to_device

abbrev pub phase_of : MobilesyncClient → Phase
phase_of client = phase_in client.data_class client.direction

-- The public calls on a client, with their arguments.
pub data Call (P : Type 0) : Type 0 where
  start : Option CString → Option Anchors → ℕ → Bool → Bool → Call P
  finish : Call P
  cancel : Option CString → Call P
  get_all_records : Call P
  get_changes : Call P
  receive_changes : Bool → Call P
  clear_all_records : Call P
  acknowledge_changes : Call P
  ready_to_send_changes : Call P
  send_changes : Option P → Bool → Option P → Call P
  remap_identifiers : Call P

-- The anchors that a session starts with are complete with that of the computer.
abbrev pub can_start : Option CString → Option Anchors → Bool
can_start (some data_class) (some anchors) = elim anchors.computer_anchor [
  | none ↦ false
  | some computer_anchor ↦ true
]
can_start data_class anchors = false

-- The phase after a call with the given result. A start opens a session whatever its result is.
unfoldable pub next : {P : Type 0} → Call P → MobilesyncError → Phase → Phase
next (Call.start data_class anchors version want_type want_version) e Phase.idle =
    if can_start data_class anchors then Phase.from_device else Phase.idle
next Call.finish e phase = Phase.idle
next (Call.cancel (some reason)) e phase = Phase.idle
next Call.ready_to_send_changes e Phase.from_device =
    if is_success e then Phase.to_device else Phase.from_device
next call e phase = phase

module _ {P W : Type 0} (nodes : PlistNodes P) (port : PlistPort P W) where
  abbrev pub without_stored :
      (MobilesyncError × SyncStart) × MobilesyncClient × W → MobilesyncError × MobilesyncClient × W
  without_stored ((e, stored), client, w) = (e, client, w)

  abbrev pub same : MobilesyncClient → MobilesyncError × W → MobilesyncError × MobilesyncClient × W
  same client (e, w) = (e, client, w)

  abbrev pub same_but :
      {A : Type 0}
      → MobilesyncClient
      → MobilesyncError × A × W
      → MobilesyncError × MobilesyncClient × W
  same_but client (e, stored, w) = (e, client, w)

  -- The result of a call and the client behind it.
  unfoldable pub run :
      Call P → MobilesyncClient → W → Outcome (MobilesyncError × MobilesyncClient × W)
  run (Call.start data_class anchors version want_type want_version) client w =
      start_session nodes port client data_class anchors version want_type want_version w >>= λ x.
      done (without_stored x)
  run Call.finish client w = finish_session nodes port client w
  run (Call.cancel reason) client w = done (cancel_session nodes port client reason w)
  run Call.get_all_records client w =
      done (same client (mobilesync_get_all_records_from_device nodes port (some client) w))
  run Call.get_changes client w =
      done (same client (mobilesync_get_changes_from_device nodes port (some client) w))
  run (Call.receive_changes actions_test) client w =
      mobilesync_receive_changes nodes port (some client) actions_test w >>= λ x.
      done (same_but client x)
  run Call.clear_all_records client w =
      mobilesync_clear_all_records_on_device nodes port (some client) w >>= λ x.
      done (same client x)
  run Call.acknowledge_changes client w =
      done (same client (mobilesync_acknowledge_changes_from_device nodes port (some client) w))
  run Call.ready_to_send_changes client w = ready_to_send nodes port client w
  run (Call.send_changes entities is_last_record actions) client w = done (
      same client
        (mobilesync_send_changes nodes port (some client) entities is_last_record actions w))
  run Call.remap_identifiers client w =
      mobilesync_remap_identifiers nodes port (some client) w >>= λ x. done (same_but client x)

  -- The calls of a list, one after the other: their results, and the client behind them.
  unfoldable pub run_all :
      List (Call P) → MobilesyncClient → W → Outcome (List MobilesyncError × MobilesyncClient × W)
  run_all [] client w = done ([], client, w)
  run_all (call ∷ calls) client w = do
    (e, client', w') ← run call client w
    (es, client2, w2) ← run_all calls client' w'
    done (e ∷ es, client2, w2)

-- The phase after calls with the given results.
unfoldable pub next_all : {P : Type 0} → List (Call P) → List MobilesyncError → Phase → Phase
next_all (call ∷ calls) (e ∷ es) phase = next_all calls es (next call e phase)
next_all calls es phase = phase
