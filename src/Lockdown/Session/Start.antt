-- ===== src/Lockdown/Session/Start.antt =====
-- src/lockdown.c: lockdownd_start_session.
pub mod Opened
pub mod Restart
use libiphone_debian.Common.Outcome.{Fault, Outcome, done, fault, ◌>>=◌, null_deref}
use libiphone_debian.Common.{none, some, true, false, Bool, Option, if◌then◌else◌}
use libiphone_debian.Common.CString.{CString}
use libiphone_debian.Plist.{Node, PlistNodes, insert_item, get_item, string_value}
use libiphone_debian.PropertyList.{PlistClient, PlistServiceError}
use libiphone_debian.DeviceLink.{went_well}
use libiphone_debian.Lockdown.{
  LockdownError, LockdownClient, LockdownPort, SessionId, has_session, is_success,
}
use libiphone_debian.Lockdown.Request.{
  CheckResult, lockdown_check_result, asked_checked, with_request, labelled, lockdownd_send,
  lockdownd_receive,
}
use libiphone_debian.Lockdown.Session.{is_text, stop_running, with_parent, bool_of}
use libiphone_debian.Lockdown.Strings.{
  session_id_text, host_id_text, start_session_text, error_text, invalid_host_id_text,
  enable_session_ssl_text,
}

-- The string of a session that is over is freed, and client->session_id goes on pointing to it.
abbrev pub after_free : SessionId → SessionId
after_free SessionId.unset = SessionId.unset
after_free _ = SessionId.freed

-- What client->session_id holds after an answer that may give a session.
abbrev pub given_session : Option CString → SessionId → SessionId
given_session none before = before
given_session (some s) before = SessionId.live s

-- strdup(client->session_id) for *session_id where `session_id` is set, which reads the string.
abbrev pub copied : Bool → SessionId → Outcome (Option CString)
copied false id = done none
copied true SessionId.unset = done none
copied true (SessionId.live s) = done (some s)
copied true SessionId.freed = fault Fault.use_after_free

-- What the call leaves: its result, the client, and what it stores in *session_id and in
-- *ssl_enabled where it stores anything.
pub record Started : Type 0 where
  pub result : LockdownError
  pub client : LockdownClient
  pub session_id : Option CString
  pub use_ssl : Option Bool

module _ {P W : Type 0} (nodes : PlistNodes P) (port : LockdownPort P W) where
  -- A string node's value, NULL for another node or none.
  abbrev pub refused_with : LockdownError → Option CString → LockdownError
  refused_with e error =
      if is_text invalid_host_id_text error then LockdownError.invalid_host_id else e

  -- plist_get_bool_val of a node that is there and is a Boolean, 0 otherwise
  abbrev pub wants_ssl : Option P → Bool
  wants_ssl none = false
  wants_ssl (some p) = bool_of (nodes.view p)

  abbrev enabled :
      LockdownClient
      → PlistServiceError × Option PlistClient × W
      → LockdownError × LockdownClient × W
  enabled client (e, parent, w) = (
    if went_well e then LockdownError.success else LockdownError.ssl_error,
    record client { parent = parent; ssl_enabled = went_well e },
    w,
  )

  -- The switch to SSL, if the device wants it.
  abbrev pub secured : Bool → LockdownClient → W → LockdownError × LockdownClient × W
  secured use_ssl client w =
      if use_ssl
      then enabled client (port.enable_ssl client.parent w)
      else (LockdownError.success, record client { ssl_enabled = false }, w)

  abbrev pub started : Option CString → Bool → LockdownError × LockdownClient × W → Started × W
  started session_id use_ssl (e, client, w) =
      (record { result = e; client = client; session_id = session_id; use_ssl = some use_ssl }, w)

  -- The answer is no failure.
  unfoldable pub accept_session : Bool → LockdownClient → P → W → Outcome (Started × W)
  accept_session wanted client answer w =
      let use_ssl = wants_ssl (get_item nodes answer enable_session_ssl_text) in
      let session_id =
        given_session (string_value nodes (get_item nodes answer session_id_text))
          client.session_id in
      copied wanted session_id >>= λ s.
      done (started s use_ssl (secured use_ssl (record client { session_id = session_id }) w))

  -- The answer, which may be a failure.
  unfoldable pub answered_start :
      Bool → LockdownClient → LockdownError × Option P × W → Outcome (Started × W)
  answered_start wanted client (e, none, w) = done (
    record {
      result = LockdownError.plist_error;
      client = client;
      session_id = none;
      use_ssl = none;
    },
    w,
  )
  answered_start wanted client (e, some answer, w) =
      let opened = accept_session wanted client answer w in
      let error = string_value nodes (get_item nodes answer error_text) in
      elim (lockdown_check_result nodes (some answer) (some start_session_text)) [
        | CheckResult.result_failure ↦ done (
          record {
            result = refused_with e error;
            client = client;
            session_id = none;
            use_ssl = none;
          },
          w,
        )
        | _ ↦ opened
      ]

  abbrev pub start_request : LockdownClient → CString → P
  start_request client host_id = nodes.new_dict (
      with_request nodes start_session_text
        (insert_item host_id_text (nodes.new_string host_id) (labelled nodes client)))

  -- The request is sent, and the answer is looked at only if that succeeds.
  unfoldable pub request_session : Bool → LockdownClient → CString → W → Outcome (Started × W)
  request_session wanted client host_id w =
      let (e, w') = lockdownd_send port (some client) (some (start_request client host_id)) w in
      let answered = lockdownd_receive port (some client) (some none) w' >>= λ x.
      answered_start wanted client x in
      if is_success e
      then answered
      else done (record { result = e; client = client; session_id = none; use_ssl = none }, w')

  -- A running session is stopped first.
  abbrev restarted : Bool → Option CString → LockdownClient × W → Outcome (Started × W)
  restarted wanted none (client, w) = fault Fault.null_deref
  restarted wanted (some host_id) (client, w) =
      request_session wanted (record client { session_id = after_free client.session_id }) host_id w

  -- `wanted` says whether `session_id` is set. A client that is NULL is read all the same, and so is the text of a host_id that is NULL.
  unfoldable pub lockdownd_start_session :
      Option LockdownClient → Option CString → Bool → W → Outcome (Started × W)
  lockdownd_start_session none host_id wanted w = fault Fault.null_deref
  lockdownd_start_session (some client) host_id wanted w =
      stop_running nodes port client client.session_id w >>= λ x. restarted wanted host_id x
