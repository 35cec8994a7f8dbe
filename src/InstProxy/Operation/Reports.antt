-- ===== src/InstProxy/Operation/Reports.antt =====
-- src/installation_proxy.c: the end of an operation's status loop.
use libiphone_debian.Common.{
  false, true, Bool, Option, ℕ, some, zero, suc, ◌<◌, arith, ◌≡◌, refl, ◌∙◌, ap,
}
use libiphone_debian.Common.CString.{CString}
use libiphone_debian.Common.Outcome.{Outcome, done}
use libiphone_debian.Plist.{PlistNodes}
use libiphone_debian.PropertyList.{PlistClient, PlistServiceError}
use libiphone_debian.InstProxy.{
  InstproxyError, InstproxyClient, InstproxyPort, instproxy_error, instproxy_lock, instproxy_unlock,
}
use libiphone_debian.InstProxy.Operation.{
  StatusCallback, called, judge_status, instproxy_perform_operation, continued,
}

-- The device reports n statuses that neither end the operation nor fail, each of which goes to the
-- callback, and the world behind them.
pub data Progress {P W : Type 0} (nodes : PlistNodes P) (port : InstproxyPort P W)
    (cb : Option (StatusCallback P W)) (operation : CString) (parent : Option PlistClient)
    : W → ℕ → W → Type 0 where
  none_yet : (w : W) → Progress nodes port cb operation parent w 0 w
  report :
      (w w1 w2 : W) (n : ℕ) (dict : P)
      → port.receive_with_timeout parent 30000 w ≡ done (PlistServiceError.success, some dict, w1)
      → judge_status nodes port dict ≡ (true, InstproxyError.success)
      → Progress nodes port cb operation parent (called cb operation dict w1) n w2
      → Progress nodes port cb operation parent w (suc n) w2

module _ {P W : Type 0} (nodes : PlistNodes P) (port : InstproxyPort P W)
    (cb : Option (StatusCallback P W)) (operation : CString) where
  abbrev pub client_with : PlistClient → Bool → InstproxyClient
  client_with parent updating = record {
    parent = some parent;
    locked = false;
    status_updater = updating;
  }

  -- One round, with what is received in it.
  round :
      (parent : PlistClient) (updating : Bool) (fuel : ℕ) (dict : P) (w w1 : W)
      → port.receive_with_timeout (some parent) 30000 w
        ≡ done (PlistServiceError.success, some dict, w1)
      → instproxy_perform_operation nodes port
          (suc fuel)
          cb
          operation
          (client_with parent updating)
          w
        ≡ continued nodes port
            (instproxy_perform_operation nodes port fuel cb operation)
            (client_with parent updating)
            (judge_status nodes port dict, called cb operation dict w1)
  unfolding instproxy_perform_operation instproxy_lock instproxy_unlock instproxy_error
  round parent updating fuel dict w w1 h = rw h refl

  abbrev goes_on :
      ℕ
      → PlistClient
      → Bool
      → P
      → W
      → Bool × InstproxyError
      → Outcome (InstproxyError × InstproxyClient × W)
  goes_on fuel parent updating dict w1 judgement =
      continued nodes port (instproxy_perform_operation nodes port fuel cb operation)
        (client_with parent updating) (judgement, called cb operation dict w1)

  -- If the device reports n statuses that do not end the operation, and then one that does, with a given
  -- result, then instproxy_perform_operation with fuel for more than n rounds returns that result;
  -- each status has gone to the callback, in order, and the mutex is free.
  pub perform_operation-Progress :
      (parent : PlistClient) (updating : Bool) (n fuel : ℕ) (last : P) (res : InstproxyError)
      (w w1 w2 : W)
      → Progress nodes port cb operation (some parent) w n w1
      → port.receive_with_timeout (some parent) 30000 w1
        ≡ done (PlistServiceError.success, some last, w2)
      → judge_status nodes port last ≡ (false, res)
      → n < fuel
      → instproxy_perform_operation nodes port fuel cb operation (client_with parent updating) w
        ≡ done (res, client_with parent updating, called cb operation last w2)
  perform_operation-Progress parent updating n zero last res w w1 w2 p h j k =
      absurd (omega (arith, k))
  perform_operation-Progress parent updating zero (suc fuel) last res w w1 w2 (Progress.none_yet _)
        h j k =
      round parent updating fuel last w w2 h ∙ ap (goes_on fuel parent updating last w2) j
  perform_operation-Progress parent updating (suc n) (suc fuel) last res w w1 w2
        (Progress.report _ v1 _ _ dict r g more) h j k =
      round parent updating fuel dict w v1 r
      ∙ (ap (goes_on fuel parent updating dict v1) g
          ∙ perform_operation-Progress parent updating n fuel last res (called cb operation dict v1)
              w1 w2 more h j (omega (arith, k)))
