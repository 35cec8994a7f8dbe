-- ===== src/Afc/Write/Locking.antt =====
-- src/afc.c: the mutex and the client through afc_file_write.
use libiphone_debian.Common.{
  none, ◌/◌, ◌%◌, ◌-◌, ◌==◌, ◌||◌, ltb, not, zero, ◌^◌, drop, ◌+◌, length, some, suc, take, Bool,
  List, Option, ℕ,
}
use libiphone_debian.Afc.Session.Soundness.{
  lock-Unblocked, receive_data-Unblocked, unlock-IsReady, RefersReady, dispatch-IsSound, IsSound,
}
use libiphone_debian.Afc.Write.{
  resume_write, max_write, WriteResult, WriteStep, afc_file_write, dispatch_write, write_rest,
  write_segment, write_segments,
}
use libiphone_debian.Afc.Session.{afc_lock}
use libiphone_debian.Afc.Transfer.{afc_receive_data}
use libiphone_debian.Common.Outcome.{Unblocked-bind, Unblocked-if, Outcome, Unblocked}
use libiphone_debian.Afc.Packet.{AfcClient}
use libiphone_debian.Channel.{Channel}

module _ {W : Type 0} (ch : Channel W) where
  pub dispatch_write-IsSound :
      (handle : ℕ) (chunk : List ℕ) (n : ℕ) (c : AfcClient) (w : W)
      → IsSound c
      → IsSound (dispatch_write ch handle chunk n c w).client
  unfolding dispatch_write
  dispatch_write-IsSound handle chunk n c w h =
      (dispatch-IsSound ch _ _ _ w
        (record { connected = h.connected; magic = h.magic; numbered = h.numbered })).0

  abbrev StepSound : WriteStep W → Type 0
  StepSound (WriteStep.ended ret c w) = IsSound c
  StepSound (WriteStep.more cur c w) = IsSound c

  write_segment-Unblocked :
      (handle : ℕ) (bytes : List ℕ) (cur : ℕ) (c : AfcClient) (w : W)
      → IsSound c
      → Unblocked StepSound (write_segment ch handle bytes cur c w)
  unfolding write_segment
  write_segment-Unblocked handle bytes cur c w h =
      let d = dispatch_write ch handle (take max_write (drop cur bytes)) max_write c w in
      let s = dispatch_write-IsSound handle (take max_write (drop cur bytes)) max_write c w h in
      Unblocked-if _ (ltb (length bytes) (cur + max_write)) _ _ tt (
        Unblocked-if _ (not (d.ret == 0)) _ _ s (
          Unblocked-bind _ StepSound (afc_receive_data ch d.client d.world) _
            (receive_data-Unblocked ch d.client d.world)
            (λ a _. Unblocked-if _ (not (a.0.ret == 0)) _ _ s s)))

  write_rest-Unblocked :
      (handle : ℕ) (bytes : List ℕ) (cur : ℕ) (c : AfcClient) (w : W)
      → IsSound c
      → Unblocked (λ x. RefersReady x.client) (write_rest ch handle bytes cur c w)
  unfolding write_rest
  write_rest-Unblocked handle bytes cur c w h =
      let n = (length bytes + 2 ^ 32 - cur) % 2 ^ 32 in
      let d = dispatch_write ch handle (take n (drop cur bytes)) n c w in
      let s =
        unlock-IsReady d.client (dispatch_write-IsSound handle (take n (drop cur bytes)) n c w h) in
      Unblocked-if _ (cur == length bytes) _ _ (unlock-IsReady c h) (
        Unblocked-if _ (ltb (length bytes) (cur + n)) _ _ tt (
          Unblocked-if _ (not (d.ret == 0)) _ _ s (
            Unblocked-bind _ (λ x. RefersReady x.client) (afc_receive_data ch d.client d.world) _
              (receive_data-Unblocked ch d.client d.world) (λ a _. s))))

  resume_write-Unblocked :
      (step : WriteStep W) (again : ℕ → AfcClient → W → Outcome (WriteResult W))
      → StepSound step
      → ((cur : ℕ) (c : AfcClient) (w : W)
          → IsSound c
          → Unblocked (λ x. RefersReady x.client) (again cur c w))
      → Unblocked (λ x. RefersReady x.client) (resume_write ch step again)
  unfolding resume_write
  resume_write-Unblocked (WriteStep.ended ret c w) again h k = unlock-IsReady c h
  resume_write-Unblocked (WriteStep.more cur c w) again h k = k cur c w h

  write_segments-Unblocked :
      (segments handle : ℕ) (bytes : List ℕ) (cur : ℕ) (c : AfcClient) (w : W)
      → IsSound c
      → Unblocked (λ x. RefersReady x.client) (write_segments ch segments handle bytes cur c w)
  unfolding write_segments
  write_segments-Unblocked zero handle bytes cur c w h = write_rest-Unblocked handle bytes cur c w h
  write_segments-Unblocked (suc segments) handle bytes cur c w h =
      Unblocked-bind StepSound (λ x. RefersReady x.client) (write_segment ch handle bytes cur c w) _
        (write_segment-Unblocked handle bytes cur c w h)
        (λ step k.
          resume_write-Unblocked step _ k
            (λ cur' c' w' s. write_segments-Unblocked segments handle bytes cur' c' w' s))

  pub file_write-Unblocked :
      (client : Option AfcClient) (handle : ℕ) (bytes : List ℕ) (written : Bool) (w : W)
      → RefersReady client
      → Unblocked (λ x. RefersReady x.client) (afc_file_write ch client handle bytes written w)
  unfolding afc_file_write
  file_write-Unblocked none handle bytes written w h = h
  file_write-Unblocked (some c) handle bytes written w h =
      Unblocked-if _ (not c.connection || not written || handle == 0) _ _ h (
        Unblocked-bind IsSound (λ x. RefersReady x.client) (afc_lock c) _ (lock-Unblocked c h)
          (λ c' k. write_segments-Unblocked (length bytes / max_write) handle bytes 0 c' w k))
