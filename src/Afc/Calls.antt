-- ===== src/Afc/Calls.antt =====
-- Any calls on one client, in any order: the public functions of src/afc.c that take a client, as a
-- data type, and runs of them.
use libiphone_debian.Afc.Files.Locking.{
  file_tell-Unblocked, file_truncate-Unblocked, file_seek-Unblocked, file_lock-Unblocked,
  file_close-Unblocked, file_open-Unblocked,
}
use libiphone_debian.Afc.Read.Locking.{file_read-Unblocked}
use libiphone_debian.Afc.Write.Locking.{file_write-Unblocked}
use libiphone_debian.Afc.Write.{afc_file_write}
use libiphone_debian.Afc.Read.{afc_file_read}
use libiphone_debian.Afc.Files.{
  afc_file_truncate, afc_file_tell, afc_file_seek, afc_file_lock, afc_file_close, afc_file_open,
}
use libiphone_debian.Afc.Paths.Locking.{
  set_file_time-Unblocked, make_link-Unblocked, truncate-Unblocked, get_file_info-Unblocked,
  make_directory-Unblocked, rename_path-Unblocked, remove_path-Unblocked,
  get_device_info_key-Unblocked, get_device_info-Unblocked, read_directory-Unblocked,
}
use libiphone_debian.Afc.Paths.{
  afc_set_file_time, afc_make_link, afc_truncate, afc_get_file_info, afc_make_directory,
  afc_rename_path, afc_remove_path, afc_get_device_info_key, afc_get_device_info,
  afc_read_directory,
}
use libiphone_debian.Common.{[], ◌∷◌, Bool, ℕ, List, Option}
use libiphone_debian.Common.Outcome.{Unblocked-bind, Unblocked, done, ◌>>=◌, Outcome}
use libiphone_debian.Afc.Session.Soundness.{RefersReady}
use libiphone_debian.Common.CString.{CString}
use libiphone_debian.Afc.Packet.{AfcClient}
use libiphone_debian.Channel.{Channel}

pub data Call : Type 0 where
  read_directory : Option CString → Option (Option (List CString)) → Call
  get_device_info : Option (Option (List CString)) → Call
  get_device_info_key : Option CString → Call
  remove_path : Option CString → Call
  rename_path : Option CString → Option CString → Call
  make_directory : Option CString → Call
  get_file_info : Option CString → Option (Option (List CString)) → Call
  truncate : Option CString → ℕ → Call
  make_link : ℕ → Option CString → Option CString → Call
  set_file_time : Option CString → ℕ → Call
  file_open : Option CString → ℕ → Call
  file_close : ℕ → Call
  file_lock : ℕ → ℕ → Call
  file_seek : ℕ → ℕ → ℕ → Call
  file_tell : ℕ → Call
  file_truncate : ℕ → ℕ → Call
  file_read : ℕ → ℕ → ℕ → Call
  file_write : ℕ → List ℕ → Bool → Call

-- What the next call finds.
abbrev pub After : Type 0 → Type 0
After W = Outcome (Option AfcClient × W)

module _ {W : Type 0} (ch : Channel W) where
  abbrev forget : Outcome (ℕ × Option AfcClient × W) → After W
  forget m = m >>= λ x. done (x.1, x.2)

  abbrev forget_list : Outcome (ℕ × Option (List CString) × Option AfcClient × W) → After W
  forget_list m = m >>= λ x. done (x.2, x.3)

  pub run : Call → Option AfcClient → W → After W
  run (read_directory dir list) p w = forget_list (afc_read_directory ch p dir list w)
  run (get_device_info infos) p w = forget_list (afc_get_device_info ch p infos w)
  run (get_device_info_key key) p w = afc_get_device_info_key ch p key w >>= λ x. done (x.2, x.3)
  run (remove_path path) p w = forget (afc_remove_path ch p path w)
  run (rename_path from to) p w = forget (afc_rename_path ch p from to w)
  run (make_directory dir) p w = forget (afc_make_directory ch p dir w)
  run (get_file_info path list) p w = forget_list (afc_get_file_info ch p path list w)
  run (truncate path newsize) p w = forget (afc_truncate ch p path newsize w)
  run (make_link linktype target linkname) p w =
      forget (afc_make_link ch p linktype target linkname w)
  run (set_file_time path mtime) p w = forget (afc_set_file_time ch p path mtime w)
  run (file_open filename mode) p w = afc_file_open ch p filename mode w >>= λ x. done (x.2, x.3)
  run (file_close handle) p w = forget (afc_file_close ch p handle w)
  run (file_lock handle operation) p w = forget (afc_file_lock ch p handle operation w)
  run (file_seek handle offset whence) p w = forget (afc_file_seek ch p handle offset whence w)
  run (file_tell handle) p w = afc_file_tell ch p handle w >>= λ x. done (x.2, x.3)
  run (file_truncate handle newsize) p w = forget (afc_file_truncate ch p handle newsize w)
  run (file_read fuel handle len) p w =
      afc_file_read ch fuel p handle len w >>= λ x. done (x.client, x.world)
  run (file_write handle bytes written) p w =
      afc_file_write ch p handle bytes written w >>= λ x. done (x.client, x.world)

  pub run_all : List Call → Option AfcClient → W → After W
  unfolding run
  run_all [] p w = done (p, w)
  run_all (c ∷ cs) p w = run c p w >>= λ x. run_all cs x.0 x.1

  -- One call does not block, and leaves the client ready.
  run-Unblocked :
      (c : Call) (p : Option AfcClient) (w : W)
      → RefersReady p
      → Unblocked (λ x. RefersReady x.0) (run c p w)
  unfolding run
  run-Unblocked (read_directory dir list) p w h =
      Unblocked-bind (λ x. RefersReady x.2) (λ x. RefersReady x.0)
        (afc_read_directory ch p dir list w) _ (read_directory-Unblocked ch p dir list w h)
        (λ a k. k)
  run-Unblocked (get_device_info infos) p w h =
      Unblocked-bind (λ x. RefersReady x.2) (λ x. RefersReady x.0)
        (afc_get_device_info ch p infos w) _ (get_device_info-Unblocked ch p infos w h) (λ a k. k)
  run-Unblocked (get_device_info_key key) p w h =
      Unblocked-bind (λ x. RefersReady x.2) (λ x. RefersReady x.0)
        (afc_get_device_info_key ch p key w) _ (get_device_info_key-Unblocked ch p key w h)
        (λ a k. k)
  run-Unblocked (remove_path path) p w h =
      Unblocked-bind (λ x. RefersReady x.1) (λ x. RefersReady x.0) (afc_remove_path ch p path w) _
        (remove_path-Unblocked ch p path w h) (λ a k. k)
  run-Unblocked (rename_path from to) p w h =
      Unblocked-bind (λ x. RefersReady x.1) (λ x. RefersReady x.0) (afc_rename_path ch p from to w)
        _ (rename_path-Unblocked ch p from to w h) (λ a k. k)
  run-Unblocked (make_directory dir) p w h =
      Unblocked-bind (λ x. RefersReady x.1) (λ x. RefersReady x.0) (afc_make_directory ch p dir w) _
        (make_directory-Unblocked ch p dir w h) (λ a k. k)
  run-Unblocked (get_file_info path list) p w h =
      Unblocked-bind (λ x. RefersReady x.2) (λ x. RefersReady x.0)
        (afc_get_file_info ch p path list w) _ (get_file_info-Unblocked ch p path list w h)
        (λ a k. k)
  run-Unblocked (truncate path newsize) p w h =
      Unblocked-bind (λ x. RefersReady x.1) (λ x. RefersReady x.0)
        (afc_truncate ch p path newsize w) _ (truncate-Unblocked ch p path newsize w h) (λ a k. k)
  run-Unblocked (make_link linktype target linkname) p w h =
      Unblocked-bind (λ x. RefersReady x.1) (λ x. RefersReady x.0)
        (afc_make_link ch p linktype target linkname w) _
        (make_link-Unblocked ch p linktype target linkname w h) (λ a k. k)
  run-Unblocked (set_file_time path mtime) p w h =
      Unblocked-bind (λ x. RefersReady x.1) (λ x. RefersReady x.0)
        (afc_set_file_time ch p path mtime w) _ (set_file_time-Unblocked ch p path mtime w h)
        (λ a k. k)
  run-Unblocked (file_open filename mode) p w h =
      Unblocked-bind (λ x. RefersReady x.2) (λ x. RefersReady x.0)
        (afc_file_open ch p filename mode w) _ (file_open-Unblocked ch p filename mode w h)
        (λ a k. k)
  run-Unblocked (file_close handle) p w h =
      Unblocked-bind (λ x. RefersReady x.1) (λ x. RefersReady x.0) (afc_file_close ch p handle w) _
        (file_close-Unblocked ch p handle w h) (λ a k. k)
  run-Unblocked (file_lock handle operation) p w h =
      Unblocked-bind (λ x. RefersReady x.1) (λ x. RefersReady x.0)
        (afc_file_lock ch p handle operation w) _ (file_lock-Unblocked ch p handle operation w h)
        (λ a k. k)
  run-Unblocked (file_seek handle offset whence) p w h =
      Unblocked-bind (λ x. RefersReady x.1) (λ x. RefersReady x.0)
        (afc_file_seek ch p handle offset whence w) _
        (file_seek-Unblocked ch p handle offset whence w h) (λ a k. k)
  run-Unblocked (file_truncate handle newsize) p w h =
      Unblocked-bind (λ x. RefersReady x.1) (λ x. RefersReady x.0)
        (afc_file_truncate ch p handle newsize w) _
        (file_truncate-Unblocked ch p handle newsize w h) (λ a k. k)
  run-Unblocked (file_write handle bytes written) p w h =
      Unblocked-bind (λ x. RefersReady x.client) (λ x. RefersReady x.0)
        (afc_file_write ch p handle bytes written w) _
        (file_write-Unblocked ch p handle bytes written w h) (λ a k. k)
  run-Unblocked (file_tell handle) p w h =
      Unblocked-bind (λ x. RefersReady x.2) (λ x. RefersReady x.0) (afc_file_tell ch p handle w) _
        (file_tell-Unblocked ch p handle w h) (λ a k. k)
  run-Unblocked (file_read fuel handle len) p w h =
      Unblocked-bind (λ x. RefersReady x.client) (λ x. RefersReady x.0)
        (afc_file_read ch fuel p handle len w) _ (file_read-Unblocked ch fuel p handle len w h)
        (λ a k. k)

  -- From a ready client, or none, no sequence of calls ever waits for the client's own mutex, whatever
  -- the device replies and whichever calls fail; when all have returned the client is ready: its mutex is
  -- free, its magic in place and its packet count a uint64_t.
  pub run_all-Unblocked :
      (cs : List Call) (p : Option AfcClient) (w : W)
      → RefersReady p
      → Unblocked (λ x. RefersReady x.0) (run_all cs p w)
  unfolding run_all
  run_all-Unblocked [] p w h = h
  run_all-Unblocked (c ∷ cs) p w h =
      Unblocked-bind (λ x. RefersReady x.0) (λ x. RefersReady x.0) (run c p w) _
        (run-Unblocked c p w h) (λ x k. run_all-Unblocked cs x.0 x.1 k)
