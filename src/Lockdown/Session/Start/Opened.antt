-- ===== src/Lockdown/Session/Start/Opened.antt =====
-- src/lockdown.c: the session that lockdownd_start_session leaves in the client.
use libiphone_debian.Lockdown.Session.Start.{
  copied, Started, lockdownd_start_session, request_session, answered_start, accept_session,
  started, start_request, wants_ssl, secured,
}
use libiphone_debian.Common.{
  none, some, true, false, Bool, Option, if◌then◌else◌, ◌≡◌, refl, ◌&&◌, ◌||◌, not,
}
use libiphone_debian.Common.CString.{CString, string_eq}
use libiphone_debian.Common.Outcome.{done, Returns}
use libiphone_debian.Plist.{PlistNodes, get_item}
use libiphone_debian.PropertyList.{PlistServiceError}
use libiphone_debian.DeviceLink.{went_well}
use libiphone_debian.Lockdown.{LockdownError, LockdownClient, LockdownPort, SessionId, is_success}
use libiphone_debian.Lockdown.Request.{lockdownd_send, lockdownd_receive}
use libiphone_debian.Lockdown.Request.Check.{Holds, IsAnswer, check_result-IsAnswer}
use libiphone_debian.Lockdown.Session.{stop_running}
use libiphone_debian.Lockdown.Strings.{
  start_session_text, session_id_text, success_text, enable_session_ssl_text,
}

-- What is stored in *session_id, if it is set.
abbrev pub told_id : Bool → CString → Option CString
told_id wanted session_id = if wanted then some session_id else none

-- What a started session is: the client has the session, which is told to the caller, and SSL is on,
-- and the result SUCCESS, exactly as the device wants SSL and the switch to it went well.
pub record IsOpened (s : Started) (session_id : CString) (wanted use_ssl enabled : Bool)
    : Type 0 where
  pub kept : s.client.session_id ≡ SessionId.live session_id
  pub told : s.session_id ≡ told_id wanted session_id
  pub told_ssl : s.use_ssl ≡ some use_ssl
  pub with_ssl : s.client.ssl_enabled ≡ (use_ssl && enabled)
  pub result : is_success s.result ≡ (not use_ssl || enabled)

told :
    (wanted : Bool) (session_id : CString)
    → copied wanted (SessionId.live session_id) ≡ done (told_id wanted session_id)
told true session_id = refl
told false session_id = refl

result_success :
    (b : Bool) → is_success (if b then LockdownError.success else LockdownError.ssl_error) ≡ b
result_success true = refl
result_success false = refl

module _ {P W : Type 0} (nodes : PlistNodes P) (port : LockdownPort P W) where
  secured_opened :
      (wanted use_ssl : Bool) (client : LockdownClient) (session_id : CString) (w : W)
      → client.session_id ≡ SessionId.live session_id
      → IsOpened
          (started nodes port
            (told_id wanted session_id)
            use_ssl
            (secured nodes port use_ssl client w)).0
          session_id
          wanted
          use_ssl
          (went_well (port.enable_ssl client.parent w).0)
  secured_opened wanted false client session_id w h = record {
    kept = h;
    told = refl;
    told_ssl = refl;
    with_ssl = refl;
    result = refl;
  }
  secured_opened wanted true client session_id w h = record {
    kept = h;
    told = refl;
    told_ssl = refl;
    with_ssl = refl;
    result = result_success (went_well (port.enable_ssl client.parent w).0);
  }

  opened :
      (wanted : Bool) (client : LockdownClient) (answer : P) (session_id : CString) (w : W)
      → Holds nodes answer session_id_text session_id
      → Returns
          (λ s.
            IsOpened s.0 session_id wanted
              (wants_ssl nodes port (get_item nodes answer enable_session_ssl_text))
              (went_well (port.enable_ssl client.parent w).0))
          (accept_session nodes port wanted client answer w)
  unfolding accept_session
  opened wanted client answer session_id w held =
      rw (held.found, held.view_node, told wanted session_id)
        (secured_opened wanted
          (wants_ssl nodes port (get_item nodes answer enable_session_ssl_text))
          (record client { session_id = SessionId.live session_id }) session_id w refl)

  answered_success :
      (wanted : Bool) (client : LockdownClient) (answer : P) (e : LockdownError) (w : W)
      → IsAnswer nodes answer start_session_text success_text
      → answered_start nodes port wanted client (e, some answer, w)
        ≡ accept_session nodes port wanted client answer w
  unfolding answered_start string_eq
  answered_success wanted client answer e w says =
      let check = check_result-IsAnswer nodes answer start_session_text success_text says in
      rw (check, answered_start) refl

  -- On a client without a session: if the request with the host's id can be sent, and the device's
  -- answer to it is received, says Success, and names a session, then lockdownd_start_session
  -- returns, the client has that session and the caller, if it asks, is told of it; SSL is on exactly if the
  -- answer asks for it and the switch to it goes well, and the result is SUCCESS unless that switch
  -- fails.
  pub start_session_opens :
      (wanted : Bool) (client : LockdownClient) (host_id session_id : CString) (answer : P)
      (w w1 w2 : W)
      → client.session_id ≡ SessionId.unset
      → port.send_xml client.parent (some (start_request nodes port client host_id)) w
        ≡ (PlistServiceError.success, w1)
      → port.receive client.parent (some none) w1
        ≡ done (PlistServiceError.success, some answer, w2)
      → IsAnswer nodes answer start_session_text success_text
      → Holds nodes answer session_id_text session_id
      → Returns
          (λ s.
            IsOpened s.0 session_id wanted
              (wants_ssl nodes port (get_item nodes answer enable_session_ssl_text))
              (went_well (port.enable_ssl client.parent w2).0))
          (lockdownd_start_session nodes port (some client) (some host_id) wanted w)
  unfolding lockdownd_start_session stop_running request_session lockdownd_send lockdownd_receive
  start_session_opens wanted client host_id session_id answer w w1 w2 fresh sent received says
        held =
      rw (fresh, sent, received)
        (rw
          (answered_success wanted (record client { session_id = SessionId.unset }) answer
            LockdownError.success w2 says)
          (opened wanted _ answer session_id w2 held))
