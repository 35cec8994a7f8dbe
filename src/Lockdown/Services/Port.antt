-- ===== src/Lockdown/Services/Port.antt =====
-- src/lockdown.c: the port that lockdownd_start_service stores.
use libiphone_debian.Common.{
  none, some, true, false, Bool, Option, Bool-cases, inl, inr, ◌≡◌, ◌≢◌, refl, ℕ, ◌<◌, ◌%◌, ◌^◌,
  ◌==◌, arith,
}
use libiphone_debian.Common.CString.{CString}
use libiphone_debian.Common.Outcome.{done, IfDone, IfDone-bind, IfDone-all, IfDone-done}
use libiphone_debian.Plist.{Node, PlistNodes, get_item}
use libiphone_debian.Lockdown.{
  LockdownError, LockdownClient, LockdownPort, Userpref, is_success, has_session,
}
use libiphone_debian.Lockdown.Request.{
  asked_checked, lockdown_check_result, is_result_success, CheckResult,
}
use libiphone_debian.Lockdown.Request.Check.{IsAnswer, check_result_success}
use libiphone_debian.Lockdown.Services.{
  lockdownd_start_service, service_answer, service_answered, service_request, stored_port, port_of,
  port_value, start_with,
}
use libiphone_debian.Lockdown.Strings.{start_service_text, success_text, port_text}

-- The answer names a port: it is a success, and has a number other than 0 under "Port".
pub record IsPort {P : Type 0} (nodes : PlistNodes P) (answer : P) (value : ℕ) : Type 0 where
  pub says : IsAnswer nodes answer start_service_text success_text
  pub node : P
  pub found : get_item nodes answer port_text ≡ some node
  pub number : nodes.view node ≡ Node.uint value
  pub nonzero : value ≢ 0

-- What a port that is stored is: it comes with SUCCESS, in a session, and is the low 16 bits of the
-- number in an answer.
pub record IsStored {P : Type 0} (nodes : PlistNodes P) (e : LockdownError) (n : ℕ) : Type 0 where
  pub is_ok : e ≡ LockdownError.success
  pub below : n < 2 ^ 16
  pub answer : P
  pub value : ℕ
  pub port : IsPort nodes answer value
  pub low : n ≡ value % 2 ^ 16

abbrev Judged : {P : Type 0} → PlistNodes P → LockdownError → Option ℕ → Type 0
Judged nodes e none = Unit
Judged nodes e (some n) = IsStored nodes e n

module _ {P : Type 0} (nodes : PlistNodes P) where
  stored_port-Judged :
      (answer p : P) (value : ℕ)
      → IsAnswer nodes answer start_service_text success_text
      → get_item nodes answer port_text ≡ some p
      → nodes.view p ≡ Node.uint value
      → Judged nodes (stored_port value).0 (stored_port value).1
  stored_port-Judged answer p value says found number = elim (Bool-cases (value == 0)) [
    | inl zero_value ↦ rw zero_value tt
    | inr h ↦ rw h (record {
      is_ok = refl;
      below = omega arith;
      answer = answer;
      value = value;
      port = record {
        says = says;
        node = p;
        found = found;
        number = number;
        nonzero = λ e. ground (arith, h, e);
      };
      low = refl;
    })
  ]

  port_of-Judged :
      (answer p : P) (n : Node P)
      → IsAnswer nodes answer start_service_text success_text
      → get_item nodes answer port_text ≡ some p
      → nodes.view p ≡ n
      → Judged nodes (port_of n).0 (port_of n).1
  port_of-Judged answer p (Node.uint value) says found number =
      stored_port-Judged answer p value says found number
  port_of-Judged answer p (Node.array ps) says found e = tt
  port_of-Judged answer p (Node.string s) says found e = tt
  port_of-Judged answer p (Node.boolean b) says found e = tt
  port_of-Judged answer p (Node.bytes bs) says found e = tt
  port_of-Judged answer p (Node.dict es) says found e = tt
  port_of-Judged answer p Node.other says found e = tt

  port_value-Judged :
      (answer : P) (o : Option P)
      → IsAnswer nodes answer start_service_text success_text
      → get_item nodes answer port_text ≡ o
      → Judged nodes (port_value nodes o).0 (port_value nodes o).1
  port_value-Judged answer none says found = tt
  port_value-Judged answer (some p) says found =
      port_of-Judged answer p (nodes.view p) says found refl

  is_result→success :
      (r : CheckResult) → is_result_success r ≡ true → r ≡ CheckResult.result_success
  is_result→success CheckResult.result_success h = refl
  is_result→success CheckResult.result_failure h = cc
  is_result→success CheckResult.invalid h = cc

  service_answer-Judged :
      (answer : P) → Judged nodes (service_answer nodes answer).0 (service_answer nodes answer).1
  unfolding service_answer
  service_answer-Judged answer =
      let r = lockdown_check_result nodes (some answer) (some start_service_text) in
      elim (Bool-cases (is_result_success r)) [
        | inl h ↦ rw h (
            port_value-Judged answer (get_item nodes answer port_text)
              ((check_result_success nodes answer start_service_text).0 (is_result→success r h))
              refl)
        | inr h ↦ rw h tt
      ]

module _ {P W : Type 0} (nodes : PlistNodes P) (port : LockdownPort P W) (prefs : Userpref W) where
  abbrev Stored : LockdownError × Option ℕ × W → Type 0
  Stored (e, stored, w) = Judged nodes e stored

  service_answered-Stored :
      (x : LockdownError × Option P × W) → Stored (service_answered nodes port prefs x)
  service_answered-Stored (e, none, w) = tt
  service_answered-Stored (e, some answer, w) = elim (Bool-cases (is_success e)) [
    | inl h ↦ rw h (service_answer-Judged nodes answer)
    | inr h ↦ rw h tt
  ]

  -- A port is stored only where a session is on.
  abbrev InSession : LockdownClient → LockdownError × Option ℕ × W → Type 0
  InSession c (e, none, w) = Unit
  InSession c (e, some n, w) = (has_session c.session_id ≡ true) × IsStored nodes e n

  in_session :
      (c : LockdownClient) (x : LockdownError × Option ℕ × W)
      → has_session c.session_id ≡ true
      → Stored x
      → InSession c x
  in_session c (e, none, w) h s = tt
  in_session c (e, some n, w) h s = (h, s)

  start_with-InSession :
      (c : LockdownClient) (service : CString) (x : Option CString × W)
      → IfDone (InSession c) (start_with nodes port prefs c service x)
  start_with-InSession c service (none, w) = tt
  start_with-InSession c service (some host_id, w) =
      let m = asked_checked port c (service_request nodes c service) w in
      let stored = λ (h : has_session c.session_id ≡ true).
        IfDone-bind (λ x. Unit) (InSession c) m (λ x. done (service_answered nodes port prefs x))
          (IfDone-all _ (λ x. tt) m)
          (λ x u.
            in_session c (service_answered nodes port prefs x) h (service_answered-Stored x)) in
      elim (Bool-cases (has_session c.session_id)) [ inl h ↦ rw h (stored h) | inr h ↦ rw h tt ]

  -- If lockdownd_start_service stores a port, then the client has a session, the result is SUCCESS, and
  -- the port is below 2 ^ 16: the low 16 bits of a number other than 0 that an answer with the
  -- result Success to a StartService request has under "Port".
  pub start_service_bounds :
      (c : LockdownClient) (service : CString) (wanted : Bool) (e : LockdownError) (n : ℕ)
      (w w' : W)
      → lockdownd_start_service nodes port prefs (some c) (some service) wanted w
        ≡ done (e, some n, w')
      → (has_session c.session_id ≡ true) × IsStored nodes e n
  unfolding lockdownd_start_service
  start_service_bounds c service true e n w w' h =
      IfDone-done (InSession c) (start_with nodes port prefs c service (prefs.get_host_id w))
        (e, some n, w') h (start_with-InSession c service (prefs.get_host_id w))
  start_service_bounds c service false e n w w' h =
      IfDone-done (InSession c) (done (LockdownError.invalid_arg, none, w)) (e, some n, w') h tt
