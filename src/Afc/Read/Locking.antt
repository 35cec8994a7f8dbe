-- ===== src/Afc/Read/Locking.antt =====
-- src/afc.c: the mutex and the client through afc_file_read.
use libiphone_debian.Common.{
  [], ◌≡◌, ◌==◌, length, ◌||◌, ltb, not, none, zero, arith, some, suc, List, Option, ℕ,
}
use libiphone_debian.Afc.Session.Soundness.{
  exchange-Unblocked, lock-Unblocked, unlock-IsReady, IsSound, RefersReady,
}
use libiphone_debian.Afc.Session.{exchange, afc_lock}
use libiphone_debian.Common.Outcome.{Unblocked-bind, Outcome, Unblocked-if, Unblocked}
use libiphone_debian.Afc.Read.{ReadResult, ReadStep, resume, afc_file_read, read_loop, read_step}
use libiphone_debian.Afc.Transfer.{Received}
use libiphone_debian.Afc.Packet.{AfcClient}
use libiphone_debian.Channel.{Channel}
use libiphone_debian.Afc.Op
use libiphone_debian.Afc.Error

read_step-Unblocked :
    (len : ℕ) (buf : List ℕ) (r : Received) → Unblocked (λ x. Unit {0}) (read_step len buf r)
unfolding read_step
read_step-Unblocked len buf r = ground arith

module _ {W : Type 0} (ch : Channel W) where
  resume-Unblocked :
      (step : ReadStep) (buf : List ℕ) (c : AfcClient) (w : W)
      (again : List ℕ → Outcome (ReadResult W))
      → IsSound c
      → ((buf' : List ℕ) → Unblocked (λ x. RefersReady x.client) (again buf'))
      → Unblocked (λ x. RefersReady x.client) (resume ch step buf c w again)
  unfolding resume
  resume-Unblocked (ReadStep.ended ret bytes) buf c w again h k = unlock-IsReady c h
  resume-Unblocked (ReadStep.more buf') buf c w again h k = k buf'

  read_loop-Unblocked :
      (fuel handle len : ℕ) (buf : List ℕ) (c : AfcClient) (w : W)
      → IsSound c
      → Unblocked (λ x. RefersReady x.client) (read_loop ch fuel handle len buf c w)
  unfolding read_loop
  read_loop-Unblocked zero handle len buf c w h = tt
  read_loop-Unblocked (suc fuel) handle len buf c w h =
      Unblocked-if _ (ltb (length buf) len) _ _
        (Unblocked-bind (λ x. IsSound x.1 × (x.1.locked ≡ c.locked)) (λ x. RefersReady x.client)
          (exchange ch Op.read 0 0 _ 16 Error.not_enough_data c w) _
          (exchange-Unblocked ch Op.read 0 0 _ 16 Error.not_enough_data c w h)
          (λ a k.
            Unblocked-bind _ (λ x. RefersReady x.client) (read_step len buf a.0) _
              (read_step-Unblocked len buf a.0)
              (λ step _.
                resume-Unblocked step buf a.1 a.2 _ k.0
                  (λ buf'. read_loop-Unblocked fuel handle len buf' a.1 a.2 k.0))))
        (unlock-IsReady c h)

  pub file_read-Unblocked :
      (fuel : ℕ) (client : Option AfcClient) (handle len : ℕ) (w : W)
      → RefersReady client
      → Unblocked (λ x. RefersReady x.client) (afc_file_read ch fuel client handle len w)
  unfolding afc_file_read
  file_read-Unblocked fuel none handle len w h = h
  file_read-Unblocked fuel (some c) handle len w h =
      Unblocked-if _ (not c.connection || handle == 0) _ _ h (
        Unblocked-bind IsSound (λ x. RefersReady x.client) (afc_lock c) _ (lock-Unblocked c h)
          (λ c' k. read_loop-Unblocked fuel handle len [] c' w k))
