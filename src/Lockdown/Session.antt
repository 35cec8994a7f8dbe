-- ===== src/Lockdown/Session.antt =====
-- src/lockdown.c: the life of a client and of its session.
pub mod Start
pub mod Reachable
use libiphone_debian.Common.{none, some, true, false, Bool, Option, if◌then◌else◌, is_some, not}
use libiphone_debian.Common.CString.{CString, string_eq}
use libiphone_debian.Common.Outcome.{Outcome, done, fault, ◌>>=◌, null_deref, use_after_free}
use libiphone_debian.Idevice.{Device}
use libiphone_debian.Plist.{Node, PlistNodes, insert_item, get_item, string_value}
use libiphone_debian.PropertyList.{PlistClient, PlistServiceError}
use libiphone_debian.DeviceLink.{went_well}
use libiphone_debian.Lockdown.{
  LockdownError, LockdownClient, LockdownPort, SessionId, has_session, is_success,
}
use libiphone_debian.Lockdown.Request.{
  CheckResult, is_result_success, lockdown_check_result, plain_request, asked, asked_checked,
  with_request, labelled,
}
use libiphone_debian.Lockdown.Strings.{
  stop_session_text, session_id_text, goodbye_text, host_id_text, start_session_text, error_text,
  invalid_host_id_text, enable_session_ssl_text,
}

-- A string whose text is s.
abbrev pub is_text : CString → Option CString → Bool
is_text s none = false
is_text s (some t) = string_eq t s

-- plist_get_bool_val into a variable that is 0
abbrev pub bool_of : {P : Type 0} → Node P → Bool
bool_of (Node.boolean b) = b
bool_of _ = false

module _ {P W : Type 0} (nodes : PlistNodes P) (port : LockdownPort P W) where
  -- The client whose parent is not the same after a call.
  abbrev pub with_parent : LockdownClient → Option PlistClient → LockdownClient
  with_parent client parent = record client { parent = parent }

  -- SSL is switched off if the client has it on.
  abbrev pub ssl_off : LockdownClient → W → LockdownClient × W
  ssl_off client w =
      if client.ssl_enabled
      then (let (e, parent, w') = port.disable_ssl client.parent w in
          (with_parent client parent, w'))
      else (client, w)

  abbrev stopped :
      LockdownClient → LockdownError × Option P × W → LockdownError × LockdownClient × W
  stopped client (e, none, w) = (LockdownError.plist_error, client, w)
  stopped client (e, some answer, w) =
      let (client', w') = ssl_off client w in
      (
        if is_result_success (lockdown_check_result nodes (some answer) (some stop_session_text))
            then LockdownError.success
            else LockdownError.unknown_error,
        client',
        w',
      )

  abbrev pub stop_request : LockdownClient → CString → P
  stop_request client session_id = nodes.new_dict (
      insert_item session_id_text (nodes.new_string session_id)
        (with_request nodes stop_session_text (labelled nodes client)))

  unfoldable pub stop_session :
      LockdownClient → CString → W → Outcome (LockdownError × LockdownClient × W)
  stop_session client session_id w =
      asked port client (stop_request client session_id) w >>= λ x. done (stopped client x)

  abbrev of_client : LockdownError × LockdownClient × W → LockdownError × Option LockdownClient × W
  of_client (e, client, w) = (e, some client, w)

  -- The client comes back, since its parent changes where SSL is switched off.
  pub lockdownd_stop_session :
      Option LockdownClient
      → Option CString
      → W
      → Outcome (LockdownError × Option LockdownClient × W)
  lockdownd_stop_session (some client) (some session_id) w =
      stop_session client session_id w >>= λ x. done (of_client x)
  lockdownd_stop_session client session_id w = done (LockdownError.invalid_arg, client, w)

  abbrev only_state : LockdownError × LockdownClient × W → LockdownClient × W
  only_state (e, client, w) = (client, w)

  -- The session that runs is stopped; its string is read for that, and client->session_id
  -- stays as it is.
  unfoldable pub stop_running : LockdownClient → SessionId → W → Outcome (LockdownClient × W)
  stop_running client SessionId.unset w = done (client, w)
  stop_running client (SessionId.live s) w = stop_session client s w >>= λ x. done (only_state x)
  stop_running client SessionId.freed w = fault use_after_free

  abbrev said_goodbye : LockdownError × Option P × W → LockdownError × W
  said_goodbye (e, none, w) = (LockdownError.plist_error, w)
  said_goodbye (e, some answer, w) = (
    if is_result_success (lockdown_check_result nodes (some answer) (some goodbye_text))
        then LockdownError.success
        else e,
    w,
  )

  pub lockdownd_goodbye : Option LockdownClient → W → Outcome (LockdownError × W)
  lockdownd_goodbye none w = done (LockdownError.invalid_arg, w)
  lockdownd_goodbye (some client) w =
      asked port client (plain_request nodes client goodbye_text) w >>= λ x. done (said_goodbye x)

  abbrev closed : PlistServiceError × W → LockdownError × W
  closed (e, w) = (if went_well e then LockdownError.success else LockdownError.unknown_error, w)

  abbrev pub part_from_parent : LockdownClient × W → Outcome (LockdownError × W)
  part_from_parent (client, w) =
      let parted = lockdownd_goodbye (some client) w >>= λ x.
      done (closed (port.client_free client.parent x.1)) in
      if is_some client.parent then parted else done (LockdownError.unknown_error, w)

  pub lockdownd_client_free : Option LockdownClient → W → Outcome (LockdownError × W)
  lockdownd_client_free none w = done (LockdownError.invalid_arg, w)
  lockdownd_client_free (some client) w =
      stop_running client client.session_id w >>= λ x. part_from_parent x

  pub lockdownd_client_set_label : Option LockdownClient → Option CString → Option LockdownClient
  lockdownd_client_set_label none label = none
  lockdownd_client_set_label (some client) label = some (record client { label = label })

  abbrev pub new_client :
      Option CString
      → PlistServiceError × Option PlistClient × W
      → LockdownError × Option LockdownClient × W
  new_client label (e, parent, w) =
      if went_well e
      then (
        LockdownError.success,
        some (record {
          parent = parent;
          ssl_enabled = false;
          session_id = SessionId.unset;
          uuid = none;
          label = label;
        }),
        w,
      )
      else (LockdownError.mux_error, none, w)

  -- `wanted` says whether `client` is set; the second result is what is stored in *client.
  unfoldable pub lockdownd_client_new :
      Option Device → Bool → Option CString → W → LockdownError × Option LockdownClient × W
  lockdownd_client_new device false label w = (LockdownError.invalid_arg, none, w)
  lockdownd_client_new device true label w = new_client label (port.client_new device 0xf27e w)
