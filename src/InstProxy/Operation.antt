-- ===== src/InstProxy/Operation.antt =====
-- src/installation_proxy.c: operations whose status the device reports.
pub mod Reports
pub mod Completion
use libiphone_debian.Common.{
  false, true, Bool, List, Option, ℕ, none, some, if◌then◌else◌, [], ◌∷◌, not, ◌&&◌, is_some, zero,
  suc,
}
use libiphone_debian.Common.CString.{CString, string_eq}
use libiphone_debian.Common.Outcome.{Outcome, done, running, ◌>>=◌}
use libiphone_debian.Plist.{PlistNodes, get_item, string_value}
use libiphone_debian.PropertyList.{PlistClient, PlistServiceError}
use libiphone_debian.InstProxy.{
  InstproxyError, InstproxyClient, InstproxyPort, instproxy_error, is_success, instproxy_lock,
  instproxy_unlock,
}
use libiphone_debian.InstProxy.Command.{instproxy_send_command}
use libiphone_debian.InstProxy.Strings.{
  error_text, status_text, complete_text, install_text, upgrade_text, uninstall_text, archive_text,
  restore_text, remove_archive_text,
}

-- status_cb with its user_data: what it does with the name of the operation and a status.
abbrev pub StatusCallback : Type 0 → Type 0 → Type 0
StatusCallback P W = CString → P → W → W

abbrev pub called : {P W : Type 0} → Option (StatusCallback P W) → CString → P → W → W
called none operation dict w = w
called (some cb) operation dict w = cb operation dict w

abbrev pub is_complete : Option CString → Bool
is_complete none = false
is_complete (some status) = string_eq status complete_text

-- `ok`, and the result so far, behind a status: an error ends the operation, and so does "Complete",
-- which is a success even beside an error.
abbrev pub judged : Bool → Bool → Bool × InstproxyError
judged has_error complete =
    if complete
    then (false, InstproxyError.success)
    else if has_error
    then (false, InstproxyError.op_failed)
    else (true, InstproxyError.success)

module _ {P W : Type 0} (nodes : PlistNodes P) (port : InstproxyPort P W) where
  abbrev pub judge_status : P → Bool × InstproxyError
  judge_status dict =
      judged (is_some (get_item nodes dict error_text))
        (is_complete (string_value nodes (get_item nodes dict status_text)))

  -- What a round of the loop knows: whether it goes on, the result, and the world.
  abbrev pub round_end :
      Option (StatusCallback P W)
      → CString
      → PlistServiceError × Option P × W
      → (Bool × InstproxyError) × W
  round_end cb operation (e, none, w) = ((is_success (instproxy_error e), instproxy_error e), w)
  round_end cb operation (e, some dict, w) =
      if is_success (instproxy_error e)
      then (judge_status dict, called cb operation dict w)
      else ((false, instproxy_error e), w)

  -- The loop ends with `ok`, or goes on where the client has a parent.
  abbrev pub continued :
      (InstproxyClient → W → Outcome (InstproxyError × InstproxyClient × W))
      → InstproxyClient
      → (Bool × InstproxyError) × W
      → Outcome (InstproxyError × InstproxyClient × W)
  continued rest client ((ok, res), w) =
      let again = rest client w in
      if ok && is_some client.parent then again else done (res, client, w)

  -- The mutex is held while a status is received. Each round takes one status, and the fuel is
  -- the number of rounds.
  unfoldable pub instproxy_perform_operation :
      ℕ
      → Option (StatusCallback P W)
      → CString
      → InstproxyClient
      → W
      → Outcome (InstproxyError × InstproxyClient × W)
  instproxy_perform_operation zero cb operation client w = running
  instproxy_perform_operation (suc fuel) cb operation client w = do
    held ← instproxy_lock client
    x ← port.receive_with_timeout held.parent 30000 w
    continued (instproxy_perform_operation fuel cb operation) (instproxy_unlock held)
        (round_end cb operation x)

  abbrev cleaned : InstproxyError × InstproxyClient × W → Outcome (InstproxyClient × W)
  cleaned (e, client, w) = instproxy_lock client >>= λ held.
      done (instproxy_unlock (record held { status_updater = false }), w)

  -- The thread, from its start to its end.
  pub instproxy_status_updater :
      ℕ
      → Option (StatusCallback P W)
      → CString
      → InstproxyClient
      → W
      → Outcome (InstproxyClient × W)
  instproxy_status_updater fuel cb operation client w =
      instproxy_perform_operation fuel cb operation client w >>= cleaned

  abbrev created : InstproxyClient → Bool × W → Outcome (InstproxyError × InstproxyClient × W)
  created client (started, w) = done (
    if started then InstproxyError.success else InstproxyError.unknown_error,
    record client { status_updater = started },
    w,
  )

  -- With a callback a thread is created, which runs on its own, as instproxy_status_updater; without
  -- one the operation is performed here.
  unfoldable pub instproxy_create_status_updater :
      ℕ
      → Option (StatusCallback P W)
      → CString
      → InstproxyClient
      → W
      → Outcome (InstproxyError × InstproxyClient × W)
  instproxy_create_status_updater fuel none operation client w =
      instproxy_perform_operation fuel none operation client w
  instproxy_create_status_updater fuel (some cb) operation client w =
      created client (port.thread_create w)

  abbrev watched :
      ℕ
      → Option (StatusCallback P W)
      → CString
      → InstproxyClient
      → InstproxyError × W
      → Outcome (InstproxyError × InstproxyClient × W)
  watched fuel cb command client (e, w) =
      let updated = instproxy_create_status_updater fuel cb command client w in
      if is_success e then updated else done (e, client, w)

  -- A command with its arguments, and the status behind it; only one operation runs at a time.
  abbrev operate :
      ℕ
      → InstproxyClient
      → CString
      → Option P
      → Option CString
      → Option CString
      → Option (StatusCallback P W)
      → W
      → Outcome (InstproxyError × InstproxyClient × W)
  operate fuel client command options appid package_path cb w =
      let started = instproxy_lock client >>= λ held.
      watched fuel cb command (instproxy_unlock held) (
        instproxy_send_command nodes port (some held) (some command) options appid package_path
          w) in
      if not (is_some client.parent)
      then done (InstproxyError.invalid_arg, client, w)
      else if client.status_updater
      then done (InstproxyError.op_in_progress, client, w)
      else started

  unfoldable pub instproxy_install_or_upgrade :
      ℕ
      → InstproxyClient
      → Option CString
      → Option P
      → Option (StatusCallback P W)
      → CString
      → W
      → Outcome (InstproxyError × InstproxyClient × W)
  instproxy_install_or_upgrade fuel client none options cb command w =
      done (InstproxyError.invalid_arg, client, w)
  instproxy_install_or_upgrade fuel client (some pkg_path) options cb command w =
      operate fuel client command options none (some pkg_path) cb w

  -- An operation on the application of an id.
  abbrev on_application :
      CString
      → ℕ
      → InstproxyClient
      → Option CString
      → Option P
      → Option (StatusCallback P W)
      → W
      → Outcome (InstproxyError × InstproxyClient × W)
  on_application command fuel client none options cb w =
      done (InstproxyError.invalid_arg, client, w)
  on_application command fuel client (some appid) options cb w =
      operate fuel client command options (some appid) none cb w

  abbrev some_client :
      InstproxyError × InstproxyClient × W → InstproxyError × Option InstproxyClient × W
  some_client (e, client, w) = (e, some client, w)

  -- A client that is NULL is refused.
  abbrev on_client :
      Option InstproxyClient
      → (InstproxyClient → W → Outcome (InstproxyError × InstproxyClient × W))
      → W
      → Outcome (InstproxyError × Option InstproxyClient × W)
  on_client none f w = done (InstproxyError.invalid_arg, none, w)
  on_client (some client) f w = f client w >>= λ x. done (some_client x)

  module _ (fuel : ℕ) (client : Option InstproxyClient) (subject : Option CString)
      (options : Option P) (cb : Option (StatusCallback P W)) (w : W) where
    pub instproxy_install : Outcome (InstproxyError × Option InstproxyClient × W)
    instproxy_install =
        on_client client (λ c. instproxy_install_or_upgrade fuel c subject options cb install_text)
          w

    pub instproxy_upgrade : Outcome (InstproxyError × Option InstproxyClient × W)
    instproxy_upgrade =
        on_client client (λ c. instproxy_install_or_upgrade fuel c subject options cb upgrade_text)
          w

    pub instproxy_uninstall : Outcome (InstproxyError × Option InstproxyClient × W)
    instproxy_uninstall =
        on_client client (λ c. on_application uninstall_text fuel c subject options cb) w

    pub instproxy_archive : Outcome (InstproxyError × Option InstproxyClient × W)
    instproxy_archive =
        on_client client (λ c. on_application archive_text fuel c subject options cb) w

    pub instproxy_restore : Outcome (InstproxyError × Option InstproxyClient × W)
    instproxy_restore =
        on_client client (λ c. on_application restore_text fuel c subject options cb) w

    pub instproxy_remove_archive : Outcome (InstproxyError × Option InstproxyClient × W)
    instproxy_remove_archive =
        on_client client (λ c. on_application remove_archive_text fuel c subject options cb) w
