-- ===== src/Afc/Paths/Locking.antt =====
-- src/afc.c: the mutex and the client through the requests on paths.
use libiphone_debian.Common.Outcome.{Unblocked-if, Unblocked-bind, Unblocked}
use libiphone_debian.Common.{
  Option-cases, inr, ◌+◌, length, inl, not, [], ◌==◌, Bool-cases, arith, none, some, ◌∷◌, List,
  Option, ℕ,
}
use libiphone_debian.Afc.Strings.Tokens.{make_strings_list-Unblocked}
use libiphone_debian.Afc.Strings.{make_strings_list}
use libiphone_debian.Common.CString.{terminated, CString}
use libiphone_debian.Afc.Paths.{
  afc_get_file_info, afc_make_directory, afc_make_link, afc_rename_path, afc_set_file_time,
  afc_truncate, u32, removal_code, afc_get_device_info, afc_get_device_info_key, afc_read_directory,
  afc_remove_path, command, find_value, listing, value_of,
}
use libiphone_debian.Afc.Session.Soundness.{request-Unblocked, RefersReady, IsReady}
use libiphone_debian.Afc.Session.{request}
use libiphone_debian.Afc.Packet.{AfcClient}
use libiphone_debian.Channel.{Channel}
use libiphone_debian.Afc.Op
use libiphone_debian.Afc.Error

module _ {W : Type 0} (ch : Channel W) where
  command-Unblocked :
      (operation : ℕ) (buf : List ℕ) (n : ℕ) (code : ℕ → ℕ) (c : AfcClient) (w : W)
      → IsReady c
      → Unblocked (λ x. RefersReady x.1) (command ch operation buf n code c w)
  command-Unblocked operation buf n code c w h =
      Unblocked-bind (λ x. IsReady x.1) (λ x. RefersReady x.1)
        (request ch operation (some buf) (u32 n) Error.not_enough_data c w) _
        (request-Unblocked ch operation (some buf) (u32 n) Error.not_enough_data c w h) (λ a k. k)

  listing-Unblocked :
      (operation : ℕ) (buf : Option (List ℕ)) (n : ℕ) (before : Option (List CString))
      (c : AfcClient) (w : W)
      → IsReady c
      → Unblocked (λ x. RefersReady x.2) (listing ch operation buf n before c w)
  listing-Unblocked operation buf n before c w h =
      Unblocked-bind (λ x. IsReady x.1) (λ x. RefersReady x.2)
        (request ch operation buf (u32 n) Error.not_enough_data c w) _
        (request-Unblocked ch operation buf (u32 n) Error.not_enough_data c w h)
        (λ a k. elim (Bool-cases (a.0.ret == 0)) [
          | inl e ↦ rw e (
              Unblocked-bind _ (λ x. RefersReady x.2)
                (make_strings_list a.0.dump_here a.0.bytes_recv) _
                (make_strings_list-Unblocked a.0.dump_here a.0.bytes_recv) (λ l _. k))
          | inr e ↦ rw e k
        ])

  pub read_directory-Unblocked :
      (client : Option AfcClient) (dir : Option CString) (list : Option (Option (List CString)))
      (w : W)
      → RefersReady client
      → Unblocked (λ x. RefersReady x.2) (afc_read_directory ch client dir list w)
  unfolding afc_read_directory
  read_directory-Unblocked (some c) (some dir) (some none) w h =
      listing-Unblocked Op.read_dir _ _ none c w h
  read_directory-Unblocked client dir list w h = h

  pub get_device_info-Unblocked :
      (client : Option AfcClient) (infos : Option (Option (List CString))) (w : W)
      → RefersReady client
      → Unblocked (λ x. RefersReady x.2) (afc_get_device_info ch client infos w)
  unfolding afc_get_device_info
  get_device_info-Unblocked (some c) (some infos) w h =
      listing-Unblocked Op.get_devinfo none 0 infos c w h
  get_device_info-Unblocked client infos w h = h

  find_value-Unblocked :
      (key : CString) (kvps : List CString) → Unblocked (λ x. Unit {0}) (find_value key kvps)
  unfolding find_value
  find_value-Unblocked key [] = tt
  find_value-Unblocked key (k ∷ []) = ground arith
  find_value-Unblocked key (k ∷ (v ∷ rest)) = ground (arith, find_value-Unblocked key (v ∷ rest))

  value_of-Unblocked :
      (key : CString) (x : ℕ × Option (List CString) × Option AfcClient × W)
      → RefersReady x.2
      → Unblocked (λ y. RefersReady y.2) (value_of ch key x)
  value_of-Unblocked key (ret, none, client, w) h = Unblocked-if _ (ret == 0) _ _ tt h
  value_of-Unblocked key (ret, some kvps, client, w) h =
      Unblocked-if _ (ret == 0) _ _
        (Unblocked-bind _ (λ y. RefersReady y.2) (find_value key kvps) _
          (find_value-Unblocked key kvps) (λ a k. h))
        h

  pub get_device_info_key-Unblocked :
      (client : Option AfcClient) (key : Option CString) (w : W)
      → RefersReady client
      → Unblocked (λ x. RefersReady x.2) (afc_get_device_info_key ch client key w)
  unfolding afc_get_device_info_key
  get_device_info_key-Unblocked client none w h = h
  get_device_info_key-Unblocked client (some key) w h =
      Unblocked-bind (λ x. RefersReady x.2) (λ x. RefersReady x.2)
        (afc_get_device_info ch client (some none) w) _
        (get_device_info-Unblocked client (some none) w h) (λ a k. value_of-Unblocked key a k)

  pub remove_path-Unblocked :
      (client : Option AfcClient) (path : Option CString) (w : W)
      → RefersReady client
      → Unblocked (λ x. RefersReady x.1) (afc_remove_path ch client path w)
  unfolding afc_remove_path
  remove_path-Unblocked (some c) (some path) w h =
      Unblocked-if _ (not c.connection) _ _ h
        (command-Unblocked Op.remove_path _ _ removal_code c w h)
  remove_path-Unblocked client path w h = h

  pub rename_path-Unblocked :
      (client : Option AfcClient) (from to : Option CString) (w : W)
      → RefersReady client
      → Unblocked (λ x. RefersReady x.1) (afc_rename_path ch client from to w)
  unfolding afc_rename_path
  rename_path-Unblocked (some c) (some from) (some to) w h =
      Unblocked-if _ (not c.connection) _ _ h
        (command-Unblocked Op.rename_path _ _ (λ ret. ret) c w h)
  rename_path-Unblocked none (some from) (some to) w h = h
  rename_path-Unblocked client from to w h = tt

  pub make_directory-Unblocked :
      (client : Option AfcClient) (dir : Option CString) (w : W)
      → RefersReady client
      → Unblocked (λ x. RefersReady x.1) (afc_make_directory ch client dir w)
  unfolding afc_make_directory
  make_directory-Unblocked (some c) (some dir) w h =
      command-Unblocked Op.make_dir _ _ (λ ret. ret) c w h
  make_directory-Unblocked (some c) none w h = tt
  make_directory-Unblocked none dir w h = h

  pub truncate-Unblocked :
      (client : Option AfcClient) (path : Option CString) (newsize : ℕ) (w : W)
      → RefersReady client
      → Unblocked (λ x. RefersReady x.1) (afc_truncate ch client path newsize w)
  unfolding afc_truncate
  truncate-Unblocked client none newsize w h = tt
  truncate-Unblocked none (some path) newsize w h = h
  truncate-Unblocked (some c) (some path) newsize w h =
      Unblocked-if _ (not c.connection) _ _ h (command-Unblocked Op.truncate _ _ (λ ret. ret) c w h)

  pub make_link-Unblocked :
      (client : Option AfcClient) (linktype : ℕ) (target linkname : Option CString) (w : W)
      → RefersReady client
      → Unblocked (λ x. RefersReady x.1) (afc_make_link ch client linktype target linkname w)
  unfolding afc_make_link
  make_link-Unblocked (some c) linktype (some target) (some linkname) w h =
      Unblocked-if _ (not c.connection) _ _ h
        (command-Unblocked Op.make_link _ _ (λ ret. ret) c w h)
  make_link-Unblocked none linktype (some target) (some linkname) w h = h
  make_link-Unblocked client linktype target linkname w h = tt

  pub set_file_time-Unblocked :
      (client : Option AfcClient) (path : Option CString) (mtime : ℕ) (w : W)
      → RefersReady client
      → Unblocked (λ x. RefersReady x.1) (afc_set_file_time ch client path mtime w)
  unfolding afc_set_file_time
  set_file_time-Unblocked client none mtime w h = tt
  set_file_time-Unblocked none (some path) mtime w h = h
  set_file_time-Unblocked (some c) (some path) mtime w h =
      Unblocked-if _ (not c.connection) _ _ h
        (command-Unblocked Op.set_file_time _ _ (λ ret. ret) c w h)

  pub get_file_info-Unblocked :
      (client : Option AfcClient) (path : Option CString) (list : Option (Option (List CString)))
      (w : W)
      → RefersReady client
      → Unblocked (λ x. RefersReady x.2) (afc_get_file_info ch client path list w)
  unfolding afc_get_file_info
  get_file_info-Unblocked (some c) (some path) (some before) w h =
      Unblocked-bind (λ x. IsReady x.1) (λ x. RefersReady x.2)
        (request ch Op.get_file_info (some (terminated path)) (u32 (length path + 1))
          Error.not_enough_data c w)
        _ (request-Unblocked ch Op.get_file_info _ _ Error.not_enough_data c w h)
        (λ a k. elim (Option-cases a.0.dump_here) [
          | inl e ↦ rw e k
          | inr (buf, e) ↦ rw e (
              Unblocked-bind _ (λ x. RefersReady x.2) (make_strings_list (some buf) a.0.bytes_recv)
                _ (make_strings_list-Unblocked (some buf) a.0.bytes_recv) (λ l _. k))
        ])
  get_file_info-Unblocked client path list w h = h
