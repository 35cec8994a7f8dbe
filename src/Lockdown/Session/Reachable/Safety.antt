-- ===== src/Lockdown/Session/Reachable/Safety.antt =====
-- src/lockdown.c: no client that is reached holds a session id that was freed.
use libiphone_debian.Common.Outcome.{
  running, Fault, ◌>>=◌, Outcome, done, fault, use_after_free, IfDone, IfDone-bind, IfDone-done,
}
use libiphone_debian.Lockdown.Strings.{goodbye_text}
use libiphone_debian.Lockdown.Session.{
  part_from_parent, stop_request, lockdownd_stop_session, lockdownd_client_new, new_client,
  lockdownd_client_free, lockdownd_goodbye, stop_running, stop_session,
}
use libiphone_debian.Lockdown.Session.Reachable.{
  unset_not_freed, Step, Reachable, start_session-IsSafe, IsSafe,
}
use libiphone_debian.Common.{
  arith, none, some, Option, Bool-cases, inl, inr, ◌≡◌, ◌≢◌, refl, ap, ◌∙◌, sym, is_some,
}
use libiphone_debian.Common.CString.{CString}
use libiphone_debian.Plist.{PlistNodes}
use libiphone_debian.PropertyList.{PlistClient, PlistServiceError}
use libiphone_debian.Lockdown.{LockdownError, LockdownClient, LockdownPort, SessionId}
use libiphone_debian.Lockdown.Request.{asked, lockdownd_receive, lockdownd_send, plain_request}
use libiphone_debian.Lockdown.Session.Start.{lockdownd_start_session}
use libiphone_debian.Lockdown.Session.Start.Restart.{stop_session-session_id}

-- The call does not read a string that was freed.
abbrev ReadsNoFreed {ℓ} : {A : Type ℓ} → Outcome A → Type ℓ
ReadsNoFreed m = m ≢ fault use_after_free

abbrev fault_of {ℓ} : {A : Type ℓ} → Outcome A → Option Fault
fault_of (fault x) = some x
fault_of _ = none

ReadsNoFreed-bind {ℓ κ} :
    {A : Type ℓ} {B : Type κ} (m : Outcome A) (f : A → Outcome B)
    → ReadsNoFreed m
    → ((a : A) → ReadsNoFreed (f a))
    → ReadsNoFreed (m >>= f)
ReadsNoFreed-bind (done a) f h k e = k a e
ReadsNoFreed-bind (fault x) f h k e =
    let same : some x ≡ some use_after_free = ap fault_of e in h (ap fault (cc))
ReadsNoFreed-bind running f h k e = cc

done_reads {ℓ} : {A : Type ℓ} (a : A) → ReadsNoFreed (done a)
done_reads a e = cc

-- The session id of a client that is there.
abbrev SameSession : LockdownClient → Option LockdownClient → Type 0
SameSession c none = Unit
SameSession c (some c') = c'.session_id ≡ c.session_id

module _ {P W : Type 0} (nodes : PlistNodes P) (port : LockdownPort P W) where
  new_client_unset :
      (label : Option CString) (x : PlistServiceError × Option PlistClient × W) (c : LockdownClient)
      (w : W)
      → new_client nodes port label x ≡ (LockdownError.success, some c, w)
      → c.session_id ≡ SessionId.unset
  new_client_unset label (e, parent, w0) c w h = ground (arith, h)

  stop_session-SameSession :
      (c : LockdownClient) (session_id : Option CString) (w : W)
      → IfDone (λ x. SameSession c x.1) (lockdownd_stop_session nodes port (some c) session_id w)
  unfolding lockdownd_stop_session
  stop_session-SameSession c none w = refl
  stop_session-SameSession c (some s) w =
      IfDone-bind _ (λ x. SameSession c x.1) (stop_session nodes port c s w) _
        (stop_session-session_id nodes port c s w) (λ x e. e)

  Step-not_freed :
      (c c' : LockdownClient) (w w' : W)
      → Step nodes port c w c' w'
      → c.session_id ≢ SessionId.freed
      → c'.session_id ≢ SessionId.freed
  Step-not_freed c c' w w' (Step.stop _ _ session_id e _ _ stopped) safe freed = safe (
      sym (
        IfDone-done (λ x. SameSession c x.1)
          (lockdownd_stop_session nodes port (some c) session_id w) (e, some c', w') stopped
          (stop_session-SameSession c session_id w))
      ∙ freed)
  Step-not_freed c c' w w' (Step.start _ host_id wanted s _ _ fresh started) safe freed =
      IfDone-done (IsSafe nodes port) (lockdownd_start_session nodes port (some c) host_id wanted w)
        (s, w') started (start_session-IsSafe nodes port c host_id wanted w fresh) freed
  Step-not_freed c c' w w' (Step.set_label _ label _) safe freed = safe freed
  Step-not_freed c c' w w' (Step.other_call _ _ _) safe freed = safe freed

  Reachable-not_freed :
      (c : LockdownClient) (w : W) → Reachable nodes port c w → c.session_id ≢ SessionId.freed
  unfolding lockdownd_client_new
  Reachable-not_freed c w (Reachable.created device label _ w0 _ made) freed =
      unset_not_freed
        (sym (new_client_unset label (port.client_new device 0xf27e w0) c w made) ∙ freed)
  Reachable-not_freed c w (Reachable.called before _ w0 _ reached step) freed =
      Step-not_freed before c w0 w step (Reachable-not_freed before w0 reached) freed

  module _
      (quiet : (p : Option PlistClient) (w : W) → ReadsNoFreed (port.receive p (some none) w)) where
    asked_reads : (c : LockdownClient) (p : P) (w : W) → ReadsNoFreed (asked port c p w)
    unfolding lockdownd_receive
    asked_reads c p w =
        let (e, w') = lockdownd_send port (some c) (some p) w in
        ReadsNoFreed-bind (port.receive c.parent (some none) w') _ (quiet c.parent w')
          (λ x. done_reads _)

    stop_running_reads :
        (c : LockdownClient) (id : SessionId) (w : W)
        → id ≢ SessionId.freed
        → ReadsNoFreed (stop_running nodes port c id w)
    unfolding stop_running stop_session
    stop_running_reads c SessionId.unset w safe = done_reads _
    stop_running_reads c (SessionId.live s) w safe =
        ReadsNoFreed-bind (stop_session nodes port c s w) _
          (ReadsNoFreed-bind (asked port c (stop_request nodes port c s) w) _
            (asked_reads c (stop_request nodes port c s) w) (λ x. done_reads _))
          (λ x. done_reads _)
    stop_running_reads c SessionId.freed w safe = absurd (safe refl)

    part_reads : (x : LockdownClient × W) → ReadsNoFreed (part_from_parent nodes port x)
    unfolding lockdownd_goodbye
    part_reads (c, w) =
        let goodbye =
          ReadsNoFreed-bind (asked port c (plain_request nodes c goodbye_text) w) _
            (asked_reads c (plain_request nodes c goodbye_text) w) (λ x. done_reads _) in
        let parted =
          ReadsNoFreed-bind (lockdownd_goodbye nodes port (some c) w) _ goodbye
            (λ x. done_reads _) in
        elim (Bool-cases (is_some c.parent)) [
          | inl there ↦ rw there parted
          | inr gone ↦ rw gone (done_reads _)
        ]

    -- If receiving a plist reads no freed string, then neither does lockdownd_client_free on a client
    -- that a program has reached from lockdownd_client_new by any calls, except that it has called
    -- lockdownd_start_session only where the client had no session id; and the session id of such a
    -- client was not freed.
    pub Reachable-reads_no_freed :
        (c : LockdownClient) (w : W)
        → Reachable nodes port c w
        → (c.session_id ≢ SessionId.freed)
          × (lockdownd_client_free nodes port (some c) w ≢ fault use_after_free)
    unfolding lockdownd_client_free
    Reachable-reads_no_freed c w reached =
        let safe = Reachable-not_freed c w reached in
        (
          safe,
          ReadsNoFreed-bind (stop_running nodes port c c.session_id w) _
              (stop_running_reads c c.session_id w safe) part_reads,
        )
