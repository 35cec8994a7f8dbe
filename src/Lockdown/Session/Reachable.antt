-- ===== src/Lockdown/Session/Reachable.antt =====
-- src/lockdown.c: the clients that a program gets by calls of the session functions, one after the
-- other, where lockdownd_start_session is called only when no session was started before.
pub mod Safety
use libiphone_debian.Lockdown.Strings.{
  error_text, session_id_text, enable_session_ssl_text, start_session_text,
}
use libiphone_debian.Lockdown.Session.Start.{
  refused_with, started, start_request, wants_ssl, Started, lockdownd_start_session,
  request_session, answered_start, accept_session, given_session, secured, copied,
}
use libiphone_debian.Common.Outcome.{
  ◌>>=◌, Outcome, done, fault, use_after_free, IfDone, IfDone-bind, IfDone-all, IfDone-done,
}
use libiphone_debian.Common.{
  none, some, true, false, Bool, Option, Bool-cases, inl, inr, ◌≡◌, ◌≢◌, refl, ap, ◌∙◌, sym, arith,
  if◌then◌else◌, is_some,
}
use libiphone_debian.Common.CString.{CString}
use libiphone_debian.Idevice.{Device}
use libiphone_debian.Plist.{PlistNodes, get_item, string_value}
use libiphone_debian.PropertyList.{PlistClient, PlistServiceError}
use libiphone_debian.Lockdown.{LockdownError, LockdownClient, LockdownPort, SessionId, is_success}
use libiphone_debian.Lockdown.Request.{
  CheckResult, lockdown_check_result, lockdownd_send, lockdownd_receive,
}
use libiphone_debian.Lockdown.Session.{
  lockdownd_stop_session, lockdownd_client_new, lockdownd_client_free, stop_running, stop_session,
}
use libiphone_debian.Lockdown.Session.Start.Restart.{stop_session-session_id}

-- One call on a client, in a world: with what it leaves of the two.
pub data Step {P W : Type 0} (nodes : PlistNodes P) (port : LockdownPort P W)
    : LockdownClient → W → LockdownClient → W → Type 0 where
  stop :
      (c c' : LockdownClient) (session_id : Option CString) (e : LockdownError) (w w' : W)
      → lockdownd_stop_session nodes port (some c) session_id w ≡ done (e, some c', w')
      → Step nodes port c w c' w'
  start :
      (c : LockdownClient) (host_id : Option CString) (wanted : Bool) (s : Started) (w w' : W)
      → c.session_id ≡ SessionId.unset
      → lockdownd_start_session nodes port (some c) host_id wanted w ≡ done (s, w')
      → Step nodes port c w s.client w'
  set_label :
      (c : LockdownClient) (label : Option CString) (w : W)
      → Step nodes port c w (record c { label = label }) w
  -- A call that leaves the client as it is.
  other_call : (c : LockdownClient) (w w' : W) → Step nodes port c w c w'

pub data Reachable {P W : Type 0} (nodes : PlistNodes P) (port : LockdownPort P W)
    : LockdownClient → W → Type 0 where
  created :
      (device : Option Device) (label : Option CString) (c : LockdownClient) (w w' : W)
      → lockdownd_client_new nodes port device true label w ≡ (LockdownError.success, some c, w')
      → Reachable nodes port c w'
  called :
      (c c' : LockdownClient) (w w' : W)
      → Reachable nodes port c w
      → Step nodes port c w c' w'
      → Reachable nodes port c' w'

unset_not_freed : SessionId.unset ≢ SessionId.freed
unset_not_freed h = cc

live_not_freed : (s : CString) → SessionId.live s ≢ SessionId.freed
live_not_freed s h = cc

module _ {P W : Type 0} (nodes : PlistNodes P) (port : LockdownPort P W) where
  secured-session_id :
      (use_ssl : Bool) (c : LockdownClient) (w : W)
      → (secured nodes port use_ssl c w).1.session_id ≡ c.session_id
  secured-session_id true c w = refl
  secured-session_id false c w = refl

  given_not_freed : (text : Option CString) → given_session text SessionId.unset ≢ SessionId.freed
  given_not_freed none = unset_not_freed
  given_not_freed (some s) = live_not_freed s

  abbrev IsSafe : Started × W → Type 0
  IsSafe (s, w) = s.client.session_id ≢ SessionId.freed

  opened-IsSafe :
      (wanted use_ssl : Bool) (c : LockdownClient) (text : Option CString) (w : W)
      → IfDone IsSafe (
          copied wanted (given_session text SessionId.unset) >>= λ s. done (
            started nodes port s use_ssl (
              secured nodes port use_ssl
                (record c { session_id = given_session text SessionId.unset })
                w)))
  opened-IsSafe wanted use_ssl c text w =
      let id = given_session text SessionId.unset in
      IfDone-bind (λ x. Unit) IsSafe (copied wanted id) _
        (IfDone-all _ (λ x. tt) (copied wanted id))
        (λ x u freed.
          given_not_freed text
            (sym (secured-session_id use_ssl (record c { session_id = id }) w) ∙ freed))

  accept_session-IsSafe :
      (wanted : Bool) (c : LockdownClient) (answer : P) (w : W)
      → c.session_id ≡ SessionId.unset
      → IfDone IsSafe (accept_session nodes port wanted c answer w)
  unfolding accept_session
  accept_session-IsSafe wanted c answer w h = rw h (
      opened-IsSafe wanted (wants_ssl nodes port (get_item nodes answer enable_session_ssl_text)) c
        (string_value nodes (get_item nodes answer session_id_text)) w)

  unset-IsSafe :
      (c : LockdownClient) → c.session_id ≡ SessionId.unset → c.session_id ≢ SessionId.freed
  unset-IsSafe c h freed = unset_not_freed (sym h ∙ freed)

  answered_start-IsSafe :
      (wanted : Bool) (c : LockdownClient) (x : LockdownError × Option P × W)
      → c.session_id ≡ SessionId.unset
      → IfDone IsSafe (answered_start nodes port wanted c x)
  unfolding answered_start
  answered_start-IsSafe wanted c (e, none, w) h = unset-IsSafe c h
  answered_start-IsSafe wanted c (e, some answer, w) h =
      elim (lockdown_check_result nodes (some answer) (some start_session_text))
        as (λ r. IfDone IsSafe (elim r [
          | CheckResult.result_failure ↦ done (
            record {
              result =
                  refused_with nodes port e (string_value nodes (get_item nodes answer error_text));
              client = c;
              session_id = none;
              use_ssl = none;
            },
            w,
          )
          | _ ↦ accept_session nodes port wanted c answer w
        ])) [
          | CheckResult.result_success ↦ accept_session-IsSafe wanted c answer w h
          | CheckResult.result_failure ↦ unset-IsSafe c h
          | CheckResult.invalid ↦ accept_session-IsSafe wanted c answer w h
        ]

  request_session-IsSafe :
      (wanted : Bool) (c : LockdownClient) (host_id : CString) (w : W)
      → c.session_id ≡ SessionId.unset
      → IfDone IsSafe (request_session nodes port wanted c host_id w)
  unfolding request_session
  request_session-IsSafe wanted c host_id w h =
      let (e, w') = lockdownd_send port (some c) (some (start_request nodes port c host_id)) w in
      let m = lockdownd_receive port (some c) (some none) w' in
      let answered =
        IfDone-bind (λ x. Unit) IsSafe m (answered_start nodes port wanted c)
          (IfDone-all _ (λ x. tt) m) (λ x u. answered_start-IsSafe wanted c x h) in
      elim (Bool-cases (is_success e)) [
        | inl sent ↦ rw sent answered
        | inr failed ↦ rw failed (unset-IsSafe c h)
      ]

  start_session-IsSafe :
      (c : LockdownClient) (host_id : Option CString) (wanted : Bool) (w : W)
      → c.session_id ≡ SessionId.unset
      → IfDone IsSafe (lockdownd_start_session nodes port (some c) host_id wanted w)
  unfolding lockdownd_start_session stop_running
  start_session-IsSafe c none wanted w h = rw h tt
  start_session-IsSafe c (some host_id) wanted w h =
      rw h
        (request_session-IsSafe wanted (record c { session_id = SessionId.unset }) host_id w refl)
