-- ===== src/Lockdown/Services.antt =====
-- src/lockdown.c: the start of a service, activation, and recovery.
pub mod Port
use libiphone_debian.Common.{
  none, some, true, false, Bool, Option, if◌then◌else◌, ℕ, ◌%◌, ◌^◌, ◌==◌,
}
use libiphone_debian.Common.CString.{CString}
use libiphone_debian.Common.Outcome.{Outcome, done, ◌>>=◌}
use libiphone_debian.Plist.{Node, PlistNodes, insert_item, get_item, string_value}
use libiphone_debian.Lockdown.{
  LockdownError, LockdownClient, LockdownPort, Userpref, is_success, has_session,
}
use libiphone_debian.Lockdown.Session.{is_text}
use libiphone_debian.Lockdown.Request.{
  CheckResult, is_result_success, lockdown_check_result, plain_request, asked, asked_checked,
  with_request, labelled,
}
use libiphone_debian.Lockdown.Strings.{
  start_service_text, service_text, port_text, error_text, invalid_service_text, activate_text,
  activation_record_text, invalid_activation_record_text, deactivate_text, enter_recovery_text,
}

-- A port of an answer is stored as a uint16_t, unless it is 0.
abbrev pub stored_port : ℕ → LockdownError × Option ℕ
stored_port value =
    if value == 0
    then (LockdownError.unknown_error, none)
    else (LockdownError.success, some (value % 2 ^ 16))

abbrev pub port_of : {P : Type 0} → Node P → LockdownError × Option ℕ
port_of (Node.uint value) = stored_port value
port_of _ = (LockdownError.unknown_error, none)

module _ {P : Type 0} (nodes : PlistNodes P) where
  abbrev pub port_value : Option P → LockdownError × Option ℕ
  port_value none = (LockdownError.unknown_error, none)
  port_value (some p) = port_of (nodes.view p)

  -- The error of an answer: one that is told apart by its text, or else a given one.
  abbrev pub told_error : P → CString → LockdownError → LockdownError → LockdownError
  told_error answer text named other =
      if is_text text (string_value nodes (get_item nodes answer error_text)) then named else other

  unfoldable pub service_answer : P → LockdownError × Option ℕ
  service_answer answer =
      if is_result_success (lockdown_check_result nodes (some answer) (some start_service_text))
      then port_value (get_item nodes answer port_text)
      else (
        told_error answer invalid_service_text LockdownError.invalid_service
            LockdownError.start_service_failed,
        none,
      )

  abbrev pub service_request : LockdownClient → CString → P
  service_request client service = nodes.new_dict (
      insert_item service_text (nodes.new_string service)
        (with_request nodes start_service_text (labelled nodes client)))

  abbrev activate_answer : P → LockdownError
  activate_answer answer =
      if is_result_success (lockdown_check_result nodes (some answer) (some activate_text))
      then LockdownError.success
      else told_error answer invalid_activation_record_text LockdownError.invalid_activation_record
          LockdownError.activation_failed

  abbrev deactivate_answer : P → LockdownError
  deactivate_answer answer =
      if is_result_success (lockdown_check_result nodes (some answer) (some deactivate_text))
      then LockdownError.success
      else LockdownError.unknown_error

  abbrev pub activate_request : LockdownClient → P → P
  activate_request client activation_record = nodes.new_dict (
      insert_item activation_record_text activation_record
        (with_request nodes activate_text (labelled nodes client)))

module _ {P W : Type 0} (nodes : PlistNodes P) (port : LockdownPort P W) (prefs : Userpref W) where
  abbrev pub service_answered : LockdownError × Option P × W → LockdownError × Option ℕ × W
  service_answered (e, none, w) = (if is_success e then LockdownError.plist_error else e, none, w)
  service_answered (e, some answer, w) =
      let (ret, stored) = service_answer nodes answer in
      if is_success e then (ret, stored, w) else (e, none, w)

  abbrev pub start_with :
      LockdownClient → CString → Option CString × W → Outcome (LockdownError × Option ℕ × W)
  start_with client service (none, w) = done (LockdownError.invalid_conf, none, w)
  start_with client service (some host_id, w) =
      let answered = asked_checked port client (service_request nodes client service) w >>= λ x.
      done (service_answered x) in
      if has_session client.session_id
      then answered
      else done (LockdownError.no_running_session, none, w)

  -- `wanted` says whether `port` is set; the second result is what is stored in *port.
  unfoldable pub lockdownd_start_service :
      Option LockdownClient → Option CString → Bool → W → Outcome (LockdownError × Option ℕ × W)
  lockdownd_start_service (some client) (some service) true w =
      start_with client service (prefs.get_host_id w)
  lockdownd_start_service client service wanted w = done (LockdownError.invalid_arg, none, w)

  abbrev answered : (P → LockdownError) → LockdownError × Option P × W → LockdownError × W
  answered judge (e, none, w) = (LockdownError.plist_error, w)
  answered judge (e, some answer, w) = (judge answer, w)

  abbrev activate_with : LockdownClient → P → W → Outcome (LockdownError × W)
  activate_with client activation_record w =
      asked port client (activate_request nodes client activation_record) w >>= λ x.
      done (answered (activate_answer nodes) x)

  unfoldable pub lockdownd_activate :
      Option LockdownClient → Option P → W → Outcome (LockdownError × W)
  lockdownd_activate none activation_record w = done (LockdownError.invalid_arg, w)
  lockdownd_activate (some client) none w = done (
    if has_session client.session_id
        then LockdownError.invalid_arg
        else LockdownError.no_running_session,
    w,
  )
  lockdownd_activate (some client) (some activation_record) w =
      let activated = activate_with client activation_record w in
      if has_session client.session_id
      then activated
      else done (LockdownError.no_running_session, w)

  unfoldable pub lockdownd_deactivate : Option LockdownClient → W → Outcome (LockdownError × W)
  lockdownd_deactivate none w = done (LockdownError.invalid_arg, w)
  lockdownd_deactivate (some client) w =
      let deactivated = asked port client (plain_request nodes client deactivate_text) w >>= λ x.
      done (answered (deactivate_answer nodes) x) in
      if has_session client.session_id
      then deactivated
      else done (LockdownError.no_running_session, w)

  abbrev recovered : LockdownError × Option P × W → LockdownError × W
  recovered (e, answer, w) = (
    if is_result_success (lockdown_check_result nodes answer (some enter_recovery_text))
        then LockdownError.success
        else e,
    w,
  )

  pub lockdownd_enter_recovery : Option LockdownClient → W → Outcome (LockdownError × W)
  lockdownd_enter_recovery none w = done (LockdownError.invalid_arg, w)
  lockdownd_enter_recovery (some client) w =
      asked port client (plain_request nodes client enter_recovery_text) w >>= λ x.
      done (recovered x)
