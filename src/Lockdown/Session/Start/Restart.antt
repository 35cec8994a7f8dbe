-- ===== src/Lockdown/Session/Start/Restart.antt =====
-- src/lockdown.c: lockdownd_start_session where a session runs.
use libiphone_debian.Common.Outcome.{
  IfDone-done, IfDone-all, Returns-mono, done, fault, Returns, use_after_free, IfDone, IfDone-bind,
}
use libiphone_debian.Common.{none, some, Bool, Option, Bool-cases, inl, inr, ◌≡◌, refl, ◌∙◌}
use libiphone_debian.Common.CString.{CString, string_eq}
use libiphone_debian.Plist.{PlistNodes}
use libiphone_debian.PropertyList.{PlistServiceError}
use libiphone_debian.Lockdown.{LockdownError, LockdownClient, LockdownPort, SessionId}
use libiphone_debian.Lockdown.Request.{asked, lockdownd_send, lockdownd_receive}
use libiphone_debian.Lockdown.Request.Check.{IsAnswer, check_result-IsAnswer}
use libiphone_debian.Lockdown.Session.{
  stop_running, stop_session, stopped, stop_request, lockdownd_client_free,
}
use libiphone_debian.Lockdown.Session.Start.{
  Started, lockdownd_start_session, request_session, answered_start, start_request,
}
use libiphone_debian.Lockdown.Strings.{start_session_text, failure_text}

module _ {P W : Type 0} (nodes : PlistNodes P) (port : LockdownPort P W) where
  stopped-session_id :
      (client : LockdownClient) (x : LockdownError × Option P × W)
      → (stopped nodes port client x).1.session_id ≡ client.session_id
  stopped-session_id client (e, none, w) = refl
  stopped-session_id client (e, some answer, w) = elim (Bool-cases client.ssl_enabled) [
    | inl h ↦ rw h refl
    | inr h ↦ rw h refl
  ]

  pub stop_session-session_id :
      (client : LockdownClient) (s : CString) (w : W)
      → IfDone (λ x. x.1.session_id ≡ client.session_id) (stop_session nodes port client s w)
  unfolding stop_session
  stop_session-session_id client s w =
      let answer = asked port client (stop_request nodes port client s) w in
      IfDone-bind (λ x. Unit) _ answer _ (IfDone-all _ (λ x. tt) answer)
        (λ x h. stopped-session_id client x)

  -- To stop a session leaves the pointer as it is.
  pub stop_running-session_id :
      (client : LockdownClient) (id : SessionId) (w : W)
      → IfDone (λ x. x.0.session_id ≡ client.session_id) (stop_running nodes port client id w)
  unfolding stop_running
  stop_running-session_id client SessionId.unset w = refl
  stop_running-session_id client (SessionId.live s) w =
      IfDone-bind _ _ (stop_session nodes port client s w) _ (stop_session-session_id client s w)
        (λ x h. h)
  stop_running-session_id client SessionId.freed w = tt

  answered_failure :
      (wanted : Bool) (client : LockdownClient) (answer : P) (w : W)
      → IsAnswer nodes answer start_session_text failure_text
      → Returns
          (λ x. x.0.client.session_id ≡ client.session_id)
          (answered_start nodes port wanted client (LockdownError.success, some answer, w))
  unfolding answered_start string_eq
  answered_failure wanted client answer w says =
      let check = check_result-IsAnswer nodes answer start_session_text failure_text says in
      rw (check, answered_start) refl

  free_freed :
      (client : LockdownClient) (w : W)
      → client.session_id ≡ SessionId.freed
      → lockdownd_client_free nodes port (some client) w ≡ fault use_after_free
  unfolding lockdownd_client_free stop_running
  free_freed client w h = rw h refl

  -- The client that is left has a session id that was freed, and to free the client reads it.
  abbrev pub Dangles : Started × W → Type 0
  Dangles (s, w) =
      (s.client.session_id ≡ SessionId.freed)
      × ((u : W) → lockdownd_client_free nodes port (some s.client) u ≡ fault use_after_free)

  -- Where a session runs and is stopped, and the device answers the new request with Failure,
  -- lockdownd_start_session returns with a client whose session id was freed and still is in place, and
  -- lockdownd_client_free on that client reads the freed string, whenever it is called.
  pub restart_failure :
      (wanted : Bool) (client stopped_client : LockdownClient) (host_id session_id : CString)
      (answer : P) (w w1 w2 w3 : W)
      → client.session_id ≡ SessionId.live session_id
      → stop_running nodes port client client.session_id w ≡ done (stopped_client, w1)
      → port.send_xml stopped_client.parent
          (some (start_request nodes port stopped_client host_id))
          w1
        ≡ (PlistServiceError.success, w2)
      → port.receive stopped_client.parent (some none) w2
        ≡ done (PlistServiceError.success, some answer, w3)
      → IsAnswer nodes answer start_session_text failure_text
      → Returns Dangles (lockdownd_start_session nodes port (some client) (some host_id) wanted w)
  unfolding lockdownd_start_session request_session lockdownd_send lockdownd_receive
  restart_failure wanted client stopped_client host_id session_id answer w w1 w2 w3 live stop sent
        received says =
      let kept : stopped_client.session_id ≡ SessionId.live session_id =
        IfDone-done (λ x. x.0.session_id ≡ client.session_id)
          (stop_running nodes port client client.session_id w) (stopped_client, w1) stop
          (stop_running-session_id client client.session_id w)
        ∙ live in
      rw (stop, kept, sent, received)
        (Returns-mono (λ x. x.0.client.session_id ≡ SessionId.freed) Dangles _
          (answered_failure wanted (record stopped_client { session_id = SessionId.freed }) answer
            w3 says)
          (λ (s, w') e. (e, λ u. free_freed s.client u e)))
