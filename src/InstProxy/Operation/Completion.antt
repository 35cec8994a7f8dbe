-- ===== src/InstProxy/Operation/Completion.antt =====
-- src/installation_proxy.c: what a success of an operation's status loop rests on.
use mathlib.Core.Path.{subst}
use libiphone_debian.Common.{
  false, true, Bool, Option, ℕ, some, none, zero, suc, ◌≡◌, refl, ap, is_some,
}
use libiphone_debian.Common.CString.{CString, string_eq→eq}
use libiphone_debian.Common.Outcome.{Outcome, done, fault, running, done_injective, ◌>>=◌}
use libiphone_debian.Plist.{PlistNodes, get_item, string_value}
use libiphone_debian.PropertyList.{PlistClient, PlistServiceError}
use libiphone_debian.InstProxy.{
  InstproxyError, InstproxyClient, InstproxyPort, instproxy_error, instproxy_lock, instproxy_unlock,
}
use libiphone_debian.InstProxy.Operation.{
  StatusCallback, called, continued, is_complete, judged, round_end, instproxy_perform_operation,
}
use libiphone_debian.InstProxy.Operation.Reports.{client_with}
use libiphone_debian.InstProxy.Strings.{complete_text, error_text, status_text}

-- The device has reported "Complete" in the last status, and no error in the statuses before it; a
-- receive that brings no plist is passed over. Each status has gone to the callback.
pub data IsCompleted {P W : Type 0} (nodes : PlistNodes P) (port : InstproxyPort P W)
    (cb : Option (StatusCallback P W)) (operation : CString) (parent : PlistClient)
    : W → W → Type 0 where
  complete :
      (w w1 : W) (dict : P)
      → port.receive_with_timeout (some parent) 30000 w
        ≡ done (PlistServiceError.success, some dict, w1)
      → string_value nodes (get_item nodes dict status_text) ≡ some complete_text
      → IsCompleted nodes port cb operation parent w (called cb operation dict w1)
  status :
      (w w1 w2 : W) (dict : P)
      → port.receive_with_timeout (some parent) 30000 w
        ≡ done (PlistServiceError.success, some dict, w1)
      → get_item nodes dict error_text ≡ none
      → IsCompleted nodes port cb operation parent (called cb operation dict w1) w2
      → IsCompleted nodes port cb operation parent w w2
  no_plist :
      (w w1 w2 : W)
      → port.receive_with_timeout (some parent) 30000 w ≡ done (PlistServiceError.success, none, w1)
      → IsCompleted nodes port cb operation parent w1 w2
      → IsCompleted nodes port cb operation parent w w2

is_complete→eq : (s : Option CString) → is_complete s ≡ true → s ≡ some complete_text
is_complete→eq none h = cc
is_complete→eq (some s) h = ap some (string_eq→eq s complete_text h)

is_some-none : {A : Type 0} (o : Option A) → is_some o ≡ false → o ≡ none
is_some-none none h = refl
is_some-none (some a) h = cc

module _ {P W : Type 0} (nodes : PlistNodes P) (port : InstproxyPort P W)
    (cb : Option (StatusCallback P W)) (operation : CString) (parent : PlistClient)
    (updating : Bool) where
  -- The loop from the world `w` on, with `fuel` rounds.
  abbrev loop : ℕ → W → Outcome (InstproxyError × InstproxyClient × W)
  loop fuel w =
      instproxy_perform_operation nodes port fuel cb operation
        (client_with nodes port cb operation parent updating) w

  abbrev Completes : ℕ → Type 0
  Completes fuel =
      (w w2 : W) (left : InstproxyClient)
      → loop fuel w ≡ done (InstproxyError.success, left, w2)
      → IsCompleted nodes port cb operation parent w w2

  -- What is left of a round behind its receive.
  abbrev behind :
      ℕ → PlistServiceError × Option P × W → Outcome (InstproxyError × InstproxyClient × W)
  behind fuel x =
      continued nodes port (instproxy_perform_operation nodes port fuel cb operation)
        (client_with nodes port cb operation parent updating) (round_end nodes port cb operation x)

  -- A status, by whether it has an error and whether it is "Complete".
  status_completes :
      (has_error complete : Bool) (fuel : ℕ) (w w1 w2 : W) (left : InstproxyClient) (dict : P)
      → Completes fuel
      → port.receive_with_timeout (some parent) 30000 w
        ≡ done (PlistServiceError.success, some dict, w1)
      → is_some (get_item nodes dict error_text) ≡ has_error
      → is_complete (string_value nodes (get_item nodes dict status_text)) ≡ complete
      → continued nodes port
          (instproxy_perform_operation nodes port fuel cb operation)
          (client_with nodes port cb operation parent updating)
          (judged has_error complete, called cb operation dict w1)
        ≡ done (InstproxyError.success, left, w2)
      → IsCompleted nodes port cb operation parent w w2
  status_completes has_error true fuel w w1 w2 left dict rest came e c h =
      let same : called cb operation dict w1 ≡ w2 = ap (λ x. x.2) (done_injective _ _ h) in
      subst (IsCompleted nodes port cb operation parent w) same
        (IsCompleted.complete w w1 dict came (is_complete→eq _ c))
  status_completes true false fuel w w1 w2 left dict rest came e c h = cc
  status_completes false false fuel w w1 w2 left dict rest came e c h =
      IsCompleted.status w w1 w2 dict came (is_some-none _ e)
        (rest (called cb operation dict w1) w2 left h)

  round_completes :
      (fuel : ℕ) (w w2 : W) (left : InstproxyClient)
      (o : Outcome (PlistServiceError × Option P × W))
      → Completes fuel
      → port.receive_with_timeout (some parent) 30000 w ≡ o
      → (o >>= behind fuel) ≡ done (InstproxyError.success, left, w2)
      → IsCompleted nodes port cb operation parent w w2
  unfolding instproxy_error
  round_completes fuel w w2 left (done (PlistServiceError.success, some dict, w1)) rest came h =
      status_completes _ _ fuel w w1 w2 left dict rest came refl refl h
  round_completes fuel w w2 left (done (PlistServiceError.success, none, w1)) rest came h =
      IsCompleted.no_plist w w1 w2 came (rest w1 w2 left h)
  round_completes fuel w w2 left (done (PlistServiceError.invalid_arg, none, w1)) rest came h = cc
  round_completes fuel w w2 left (done (PlistServiceError.invalid_arg, some d, w1)) rest came h = cc
  round_completes fuel w w2 left (done (PlistServiceError.plist_error, none, w1)) rest came h = cc
  round_completes fuel w w2 left (done (PlistServiceError.plist_error, some d, w1)) rest came h = cc
  round_completes fuel w w2 left (done (PlistServiceError.mux_error, none, w1)) rest came h = cc
  round_completes fuel w w2 left (done (PlistServiceError.mux_error, some d, w1)) rest came h = cc
  round_completes fuel w w2 left (done (PlistServiceError.ssl_error, none, w1)) rest came h = cc
  round_completes fuel w w2 left (done (PlistServiceError.ssl_error, some d, w1)) rest came h = cc
  round_completes fuel w w2 left (done (PlistServiceError.unknown_error, none, w1)) rest came h = cc
  round_completes fuel w w2 left (done (PlistServiceError.unknown_error, some d, w1)) rest came h =
      cc
  round_completes fuel w w2 left (fault x) rest came h = cc
  round_completes fuel w w2 left running rest came h = cc

  perform_operation-Completes : (fuel : ℕ) → Completes fuel
  unfolding instproxy_perform_operation instproxy_lock instproxy_unlock
  perform_operation-Completes zero w w2 left h = cc
  perform_operation-Completes (suc fuel) w w2 left h =
      round_completes fuel w w2 left _ (perform_operation-Completes fuel) refl h

  -- If the status loop, with any fuel, returns success for a client that has a parent and whose
  -- mutex is free, then the device has reported: the last plist that was received has the string
  -- "Complete" for its "Status", none of the plists before it has an "Error", each of them has gone
  -- to the callback in order, and the world that is left is the one behind the last callback.
  pub perform_operation-IsCompleted :
      (fuel : ℕ) (w w2 : W) (left : InstproxyClient)
      → instproxy_perform_operation nodes port fuel cb operation
          (client_with nodes port cb operation parent updating)
          w
        ≡ done (InstproxyError.success, left, w2)
      → IsCompleted nodes port cb operation parent w w2
  perform_operation-IsCompleted fuel w w2 left h = perform_operation-Completes fuel w w2 left h
