-- ===== src/Afc/Files/Locking.antt =====
-- src/afc.c: the mutex and the client through the requests on open files.
use libiphone_debian.Common.Outcome.{Unblocked-bind, Unblocked-if, Unblocked}
use libiphone_debian.Common.{
  ◌&&◌, inr, inl, Option-cases, none, length, not, ◌==◌, ltb, some, List, Option, ℕ,
}
use libiphone_debian.Afc.Session.Soundness.{request-Unblocked, IsReady, RefersReady}
use libiphone_debian.Afc.Session.{request}
use libiphone_debian.Afc.Files.{
  file_command, afc_file_close, afc_file_lock, afc_file_open, afc_file_seek, afc_file_tell,
  afc_file_truncate, word_of,
}
use libiphone_debian.Common.CString.{CString}
use libiphone_debian.Afc.Packet.{AfcClient}
use libiphone_debian.Channel.{Channel}
use libiphone_debian.Afc.Op
use libiphone_debian.Afc.Error

word_of-Unblocked : (buf : List ℕ) → Unblocked (λ x. Unit {0}) (word_of buf)
unfolding word_of
word_of-Unblocked buf = Unblocked-if _ (ltb (length buf) 8) _ _ tt tt

module _ {W : Type 0} (ch : Channel W) where
  file_command-Unblocked :
      (operation : ℕ) (buf : List ℕ) (on_send : ℕ) (client : Option AfcClient) (handle : ℕ) (w : W)
      → RefersReady client
      → Unblocked (λ x. RefersReady x.1) (file_command ch operation buf on_send client handle w)
  file_command-Unblocked operation buf on_send none handle w h = h
  file_command-Unblocked operation buf on_send (some c) handle w h =
      Unblocked-if _ (handle == 0) _ _ h (
        Unblocked-bind (λ x. IsReady x.1) (λ x. RefersReady x.1)
          (request ch operation (some buf) (length buf) on_send c w) _
          (request-Unblocked ch operation (some buf) (length buf) on_send c w h) (λ a k. k))

  pub file_close-Unblocked :
      (client : Option AfcClient) (handle : ℕ) (w : W)
      → RefersReady client
      → Unblocked (λ x. RefersReady x.1) (afc_file_close ch client handle w)
  unfolding afc_file_close
  file_close-Unblocked client handle w h =
      file_command-Unblocked Op.file_close _ Error.unknown_error client handle w h

  pub file_lock-Unblocked :
      (client : Option AfcClient) (handle operation : ℕ) (w : W)
      → RefersReady client
      → Unblocked (λ x. RefersReady x.1) (afc_file_lock ch client handle operation w)
  unfolding afc_file_lock
  file_lock-Unblocked client handle operation w h =
      file_command-Unblocked Op.file_lock _ Error.unknown_error client handle w h

  pub file_seek-Unblocked :
      (client : Option AfcClient) (handle offset whence : ℕ) (w : W)
      → RefersReady client
      → Unblocked (λ x. RefersReady x.1) (afc_file_seek ch client handle offset whence w)
  unfolding afc_file_seek
  file_seek-Unblocked client handle offset whence w h =
      file_command-Unblocked Op.file_seek _ Error.not_enough_data client handle w h

  pub file_truncate-Unblocked :
      (client : Option AfcClient) (handle newsize : ℕ) (w : W)
      → RefersReady client
      → Unblocked (λ x. RefersReady x.1) (afc_file_truncate ch client handle newsize w)
  unfolding afc_file_truncate
  file_truncate-Unblocked client handle newsize w h =
      file_command-Unblocked Op.file_set_size _ Error.not_enough_data client handle w h

  pub file_open-Unblocked :
      (client : Option AfcClient) (filename : Option CString) (file_mode : ℕ) (w : W)
      → RefersReady client
      → Unblocked (λ x. RefersReady x.2) (afc_file_open ch client filename file_mode w)
  unfolding afc_file_open
  file_open-Unblocked client none file_mode w h = tt
  file_open-Unblocked none (some filename) file_mode w h = h
  file_open-Unblocked (some c) (some filename) file_mode w h =
      Unblocked-if _ (not c.connection) _ _ h (
        Unblocked-bind (λ x. IsReady x.1) (λ x. RefersReady x.2)
          (request ch Op.file_open _ _ Error.not_enough_data c w) _
          (request-Unblocked ch Op.file_open _ _ Error.not_enough_data c w h)
          (λ a k. elim (Option-cases a.0.dump_here) [
            | inl e ↦ rw e k
            | inr (bs, e) ↦ rw e (
                Unblocked-if _ (a.0.ret == 0 && ltb 0 a.0.bytes_recv) _ _
                  (Unblocked-bind _ (λ x. RefersReady x.2) (word_of bs) _ (word_of-Unblocked bs)
                    (λ v _. k))
                  k)
          ]))

  pub file_tell-Unblocked :
      (client : Option AfcClient) (handle : ℕ) (w : W)
      → RefersReady client
      → Unblocked (λ x. RefersReady x.2) (afc_file_tell ch client handle w)
  unfolding afc_file_tell
  file_tell-Unblocked none handle w h = h
  file_tell-Unblocked (some c) handle w h = Unblocked-if _ (handle == 0) _ _ h (
      Unblocked-bind (λ x. IsReady x.1) (λ x. RefersReady x.2)
        (request ch Op.file_tell _ 8 Error.not_enough_data c w) _
        (request-Unblocked ch Op.file_tell _ 8 Error.not_enough_data c w h)
        (λ a k. elim (Option-cases a.0.dump_here) [
          | inl e ↦ rw e k
          | inr (bs, e) ↦ rw e (
              Unblocked-if _ (ltb 0 a.0.bytes_recv) _ _
                (Unblocked-bind _ (λ x. RefersReady x.2) (word_of bs) _ (word_of-Unblocked bs)
                  (λ v _. k))
                k)
        ]))
