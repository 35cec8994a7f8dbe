-- ===== src/MobileSync/Session.antt =====
-- src/mobilesync.c: the start and the end of a session.
use libiphone_debian.Common.{none, some, true, false, Bool, List, Option, if◌then◌else◌, ℕ, [], ◌∷◌}
use libiphone_debian.Common.CString.{CString, string_eq}
use libiphone_debian.Common.Outcome.{Outcome, done, ◌>>=◌}
use libiphone_debian.Plist.{Node, PlistNodes, string_value}
use libiphone_debian.DeviceLink.{PlistPort}
use libiphone_debian.DeviceLink.Messages.{empty_parameter}
use libiphone_debian.MobileSync.{
  MobilesyncError, MobilesyncClient, SyncDirection, SyncType, Anchors, is_success,
}
use libiphone_debian.MobileSync.Transfer.{
  item, message_items, response_type_of, respond, exchange_message, mobilesync_send,
}
use libiphone_debian.MobileSync.Strings.{
  sync_data_class_with_device_text, refuse_to_sync_data_class_with_computer_text,
  cancel_session_text, sync_type_fast_text, sync_type_slow_text, sync_type_reset_text,
  finish_session_on_device_text, device_finished_session_text, no_anchor_text,
}

-- The type of the synchronization that a string names.
abbrev pub sync_type_named : CString → Option SyncType
sync_type_named s =
    if string_eq s sync_type_fast_text
    then some SyncType.fast
    else if string_eq s sync_type_slow_text
    then some SyncType.slow
    else if string_eq s sync_type_reset_text
    then some SyncType.reset
    else none

-- plist_get_uint_val: what is stored, if anything is
abbrev pub stored_uint : {P : Type 0} → Node P → Option ℕ
stored_uint (Node.uint n) = some n
stored_uint _ = none

-- What mobilesync_start stores in *sync_type and in *device_data_class_version.
pub record SyncStart : Type 0 where
  pub sync_type : Option SyncType
  pub version : Option ℕ

abbrev pub nothing_stored : SyncStart
nothing_stored = record { sync_type = none; version = none }

abbrev named_type : Option CString → Option SyncType
named_type none = none
named_type (some s) = sync_type_named s

-- The error of a message without a sync type; the others have none.
abbrev refusal : CString → Option MobilesyncError
refusal response_type =
    if string_eq response_type refuse_to_sync_data_class_with_computer_text
    then some MobilesyncError.sync_refused
    else if string_eq response_type cancel_session_text
    then some MobilesyncError.cancelled
    else none

module _ {P W : Type 0} (nodes : PlistNodes P) (port : PlistPort P W) where
  -- The version is read if it is wanted, and has to be there then.
  abbrev with_version : Bool → Option SyncType → Option P → MobilesyncError × SyncStart
  with_version false type version =
      (MobilesyncError.success, record { sync_type = type; version = none })
  with_version true type none =
      (MobilesyncError.plist_error, record { sync_type = type; version = none })
  with_version true type (some p) =
      (MobilesyncError.success, record { sync_type = type; version = stored_uint (nodes.view p) })

  -- The type of the synchronization is read if it is wanted, and has to be a known one then.
  abbrev with_type : Bool → Bool → Option SyncType → Option P → MobilesyncError × SyncStart
  with_type false want_version type version = with_version want_version none version
  with_type true want_version none version = (MobilesyncError.plist_error, nothing_stored)
  with_type true want_version (some type) version = with_version want_version (some type) version

  abbrev accepted : Bool → Bool → List P → Option MobilesyncError → MobilesyncError × SyncStart
  accepted want_type want_version ps (some refused) = (refused, nothing_stored)
  accepted want_type want_version ps none =
      with_type want_type want_version (named_type (string_value nodes (item 4 ps))) (item 5 ps)

  abbrev start_typed : Bool → Bool → List P → Option CString → MobilesyncError × SyncStart
  start_typed want_type want_version ps none = (MobilesyncError.plist_error, nothing_stored)
  start_typed want_type want_version ps (some response_type) =
      accepted want_type want_version ps (refusal response_type)

  unfoldable pub start_response :
      Bool → Bool → MobilesyncError → Option P → MobilesyncError × SyncStart
  start_response want_type want_version e msg =
      if is_success e
      then start_typed want_type want_version (message_items nodes port msg)
          (response_type_of nodes port msg)
      else (e, nothing_stored)

  abbrev anchor_or_none : Option CString → CString
  anchor_or_none none = no_anchor_text
  anchor_or_none (some anchor) = anchor

  abbrev pub start_message : CString → Option CString → CString → ℕ → P
  start_message data_class device_anchor computer_anchor version = nodes.new_array (
      nodes.new_string sync_data_class_with_device_text
      ∷ (nodes.new_string data_class
          ∷ (nodes.new_string (anchor_or_none device_anchor)
              ∷ (nodes.new_string computer_anchor
                  ∷ (nodes.new_uint version ∷ (nodes.new_string empty_parameter ∷ []))))))

  -- The client behind the label `out`: it has a session whatever the result is.
  abbrev in_session : MobilesyncClient → CString → MobilesyncClient
  in_session client data_class = record client {
    direction = SyncDirection.device_to_computer;
    data_class = some data_class;
  }

  abbrev pub start_left :
      MobilesyncClient
      → CString
      → Bool
      → Bool
      → MobilesyncError × Option P × W
      → (MobilesyncError × SyncStart) × MobilesyncClient × W
  start_left client data_class want_type want_version (e, msg, w) =
      (start_response want_type want_version e msg, in_session client data_class, w)

  -- A client, its session if it has one, a data class, and the computer's anchor.
  abbrev pub start_checked :
      MobilesyncClient
      → Option CString
      → CString
      → Anchors
      → Option CString
      → ℕ
      → Bool
      → Bool
      → W
      → Outcome ((MobilesyncError × SyncStart) × MobilesyncClient × W)
  start_checked client none data_class anchors (some computer_anchor) version want_type want_version
        w =
      exchange_message nodes port client
        (start_message data_class anchors.device_anchor computer_anchor version) w
      >>= λ x. done (start_left client data_class want_type want_version x)
  start_checked client session data_class anchors computer_anchor version want_type want_version w =
      done ((MobilesyncError.invalid_arg, nothing_stored), client, w)

  -- The client is there; `want_type` and `want_version` say which of the last two pointers are set.
  unfoldable pub start_session :
      MobilesyncClient
      → Option CString
      → Option Anchors
      → ℕ
      → Bool
      → Bool
      → W
      → Outcome ((MobilesyncError × SyncStart) × MobilesyncClient × W)
  start_session client (some data_class) (some anchors) version want_type want_version w =
      start_checked client client.data_class data_class anchors anchors.computer_anchor version
        want_type want_version w
  start_session client data_class anchors version want_type want_version w =
      done ((MobilesyncError.invalid_arg, nothing_stored), client, w)

  abbrev of_client :
      (MobilesyncError × SyncStart) × MobilesyncClient × W
      → (MobilesyncError × SyncStart) × Option MobilesyncClient × W
  of_client (x, client, w) = (x, some client, w)

  pub mobilesync_start :
      Option MobilesyncClient
      → Option CString
      → Option Anchors
      → ℕ
      → Bool
      → Bool
      → W
      → Outcome ((MobilesyncError × SyncStart) × Option MobilesyncClient × W)
  mobilesync_start none data_class anchors version want_type want_version w =
      done ((MobilesyncError.invalid_arg, nothing_stored), none, w)
  mobilesync_start (some client) data_class anchors version want_type want_version w =
      start_session client data_class anchors version want_type want_version w >>= λ x.
      done (of_client x)

  -- The session is over.
  abbrev pub without_session : MobilesyncClient → MobilesyncClient
  without_session client = record client {
    direction = SyncDirection.device_to_computer;
    data_class = none;
  }

  -- Any type of response is taken: the result is SUCCESS already.
  abbrev finished : CString → MobilesyncError
  finished response_type =
      if string_eq response_type device_finished_session_text
      then MobilesyncError.success
      else MobilesyncError.success

  abbrev pub finish_left :
      MobilesyncClient → MobilesyncError × Option P × W → MobilesyncError × MobilesyncClient × W
  finish_left client (e, msg, w) = (respond nodes port finished e msg, without_session client, w)

  abbrev pub class_message : CString → CString → P
  class_message name data_class =
      nodes.new_array (nodes.new_string name ∷ (nodes.new_string data_class ∷ []))

  abbrev finish_checked :
      MobilesyncClient → Option CString → W → Outcome (MobilesyncError × MobilesyncClient × W)
  finish_checked client none w = done (MobilesyncError.invalid_arg, client, w)
  finish_checked client (some data_class) w =
      exchange_message nodes port client (class_message finish_session_on_device_text data_class) w
      >>= λ x. done (finish_left client x)

  unfoldable pub finish_session :
      MobilesyncClient → W → Outcome (MobilesyncError × MobilesyncClient × W)
  finish_session client w = finish_checked client client.data_class w

  abbrev cancel_message : CString → CString → P
  cancel_message data_class reason = nodes.new_array (
      nodes.new_string cancel_session_text
      ∷ (nodes.new_string data_class ∷ (nodes.new_string reason ∷ [])))

  abbrev cancel_checked :
      MobilesyncClient
      → Option CString
      → Option CString
      → W
      → MobilesyncError × MobilesyncClient × W
  cancel_checked client (some data_class) (some reason) w =
      let (e, w') =
        mobilesync_send nodes port (some client) (some (cancel_message data_class reason)) w in
      (e, without_session client, w')
  cancel_checked client data_class reason w = (MobilesyncError.invalid_arg, client, w)

  unfoldable pub cancel_session :
      MobilesyncClient → Option CString → W → MobilesyncError × MobilesyncClient × W
  cancel_session client reason w = cancel_checked client client.data_class reason w

  abbrev some_client :
      MobilesyncError × MobilesyncClient × W → MobilesyncError × Option MobilesyncClient × W
  some_client (e, client, w) = (e, some client, w)

  pub mobilesync_finish :
      Option MobilesyncClient → W → Outcome (MobilesyncError × Option MobilesyncClient × W)
  mobilesync_finish none w = done (MobilesyncError.invalid_arg, none, w)
  mobilesync_finish (some client) w = finish_session client w >>= λ x. done (some_client x)

  pub mobilesync_cancel :
      Option MobilesyncClient → Option CString → W → MobilesyncError × Option MobilesyncClient × W
  mobilesync_cancel none reason w = (MobilesyncError.invalid_arg, none, w)
  mobilesync_cancel (some client) reason w = some_client (cancel_session client reason w)
