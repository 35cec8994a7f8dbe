-- ===== src/Afc/Paths.antt =====
-- src/afc.c: the requests on paths and on the device. A NULL pointer is `none`. Each request
-- returns its error code, what it stored, the client and the world.
pub mod Locking
pub mod Info
use libiphone_debian.Common.{
  ℕ, ◌+◌, ◌%◌, ◌^◌, not, Option, none, some, List, [], ◌∷◌, ◌++◌, length, ◌==◌, if◌then◌else◌,
}
use libiphone_debian.Common.Outcome.{Outcome, done, fault, null_deref, ◌>>=◌}
use libiphone_debian.Common.Bytes.{le_bytes}
use libiphone_debian.Common.CString.{CString, terminated, string_eq}
use libiphone_debian.Channel.{Channel}
use libiphone_debian.Afc.Op
use libiphone_debian.Afc.Error
use libiphone_debian.Afc.Packet.{AfcClient}
use libiphone_debian.Afc.Session.{request}
use libiphone_debian.Afc.Strings.{make_strings_list}

abbrev pub u32 : ℕ → ℕ
u32 n = n % 2 ^ 32

-- The value behind a pointer to a list, where the pointer is set.
abbrev pub stored : Option (Option (List CString)) → Option (List CString)
stored none = none
stored (some list) = list

-- The loop of afc_get_device_info_key. It steps through keys and values alike.
pub find_value : CString → List CString → Outcome (Option CString)
find_value key [] = done none
find_value key (k ∷ []) = if string_eq k key then fault null_deref else done none
find_value key (k ∷ (v ∷ rest)) =
    let next = find_value key (v ∷ rest) in if string_eq k key then done (some v) else next

-- The code that a directory that is not empty is reported by.
abbrev pub removal_code : ℕ → ℕ
removal_code ret = if ret == Error.unknown_error then Error.dir_not_empty else ret

module _ {W : Type 0} (ch : Channel W) where
  -- A request whose reply is a code alone.
  abbrev command : ℕ → List ℕ → ℕ → (ℕ → ℕ) → AfcClient → W → Outcome (ℕ × Option AfcClient × W)
  command operation buf n code c w = do
    (r, c', w') ← request ch operation (some buf) (u32 n) Error.not_enough_data c w
    done (code r.ret, some c', w')

  -- A request whose reply is a list of strings.
  abbrev listing :
      ℕ
      → Option (List ℕ)
      → ℕ
      → Option (List CString)
      → AfcClient
      → W
      → Outcome (ℕ × Option (List CString) × Option AfcClient × W)
  listing operation buf n before c w = do
    (r, c', w') ← request ch operation buf (u32 n) Error.not_enough_data c w
    let strings = make_strings_list r.dump_here r.bytes_recv
    if r.ret == 0
        then (strings >>= λ l. done (r.ret, l, some c', w'))
        else done (r.ret, before, some c', w')

  pub afc_read_directory :
      Option AfcClient
      → Option CString
      → Option (Option (List CString))
      → W
      → Outcome (ℕ × Option (List CString) × Option AfcClient × W)
  afc_read_directory (some c) (some dir) (some none) w =
      listing Op.read_dir (some (terminated dir)) (length dir + 1) none c w
  afc_read_directory client dir list w = done (Error.invalid_arg, stored list, client, w)

  pub afc_get_device_info :
      Option AfcClient
      → Option (Option (List CString))
      → W
      → Outcome (ℕ × Option (List CString) × Option AfcClient × W)
  afc_get_device_info (some c) (some infos) w = listing Op.get_devinfo none 0 infos c w
  afc_get_device_info client infos w = done (Error.invalid_arg, stored infos, client, w)

  -- What becomes of the reply to afc_get_device_info: `kvps` is read with no test for NULL.
  abbrev value_of :
      CString
      → ℕ × Option (List CString) × Option AfcClient × W
      → Outcome (ℕ × Option CString × Option AfcClient × W)
  value_of key (ret, none, client, w) =
      if ret == 0 then fault null_deref else done (ret, none, client, w)
  value_of key (ret, some kvps, client, w) =
      let found = find_value key kvps in
      if ret == 0 then (found >>= λ v. done (ret, v, client, w)) else done (ret, none, client, w)

  pub afc_get_device_info_key :
      Option AfcClient → Option CString → W → Outcome (ℕ × Option CString × Option AfcClient × W)
  unfolding afc_get_device_info
  afc_get_device_info_key client none w = done (Error.invalid_arg, none, client, w)
  afc_get_device_info_key client (some key) w =
      afc_get_device_info client (some none) w >>= value_of key

  pub afc_remove_path : Option AfcClient → Option CString → W → Outcome (ℕ × Option AfcClient × W)
  afc_remove_path (some c) (some path) w =
      if not c.connection
      then done (Error.invalid_arg, some c, w)
      else command Op.remove_path (terminated path) (length path + 1) removal_code c w
  afc_remove_path client path w = done (Error.invalid_arg, client, w)

  -- The lengths of both names are taken before any pointer is tested.
  pub afc_rename_path :
      Option AfcClient → Option CString → Option CString → W → Outcome (ℕ × Option AfcClient × W)
  afc_rename_path (some c) (some from) (some to) w =
      if not c.connection
      then done (Error.invalid_arg, some c, w)
      else command Op.rename_path (terminated from ++ terminated to)
          (length to + 1 + length from + 1) (λ ret. ret) c w
  afc_rename_path none (some from) (some to) w = done (Error.invalid_arg, none, w)
  afc_rename_path client from to w = fault null_deref

  pub afc_make_directory :
      Option AfcClient → Option CString → W → Outcome (ℕ × Option AfcClient × W)
  afc_make_directory (some c) (some dir) w =
      command Op.make_dir (terminated dir) (length dir + 1) (λ ret. ret) c w
  afc_make_directory (some c) none w = fault null_deref
  afc_make_directory none dir w = done (Error.invalid_arg, none, w)

  -- The reply is turned into a list whenever there is one, whatever the code.
  pub afc_get_file_info :
      Option AfcClient
      → Option CString
      → Option (Option (List CString))
      → W
      → Outcome (ℕ × Option (List CString) × Option AfcClient × W)
  afc_get_file_info (some c) (some path) (some before) w = do
    (r, c', w') ←
        request ch Op.get_file_info (some (terminated path)) (u32 (length path + 1))
          Error.not_enough_data c w
    elim r.dump_here [
      | none ↦ done (r.ret, before, some c', w')
      | some buf ↦ make_strings_list (some buf) r.bytes_recv >>= λ l. done (r.ret, l, some c', w')
    ]
  afc_get_file_info client path list w = done (Error.invalid_arg, stored list, client, w)

  pub afc_truncate : Option AfcClient → Option CString → ℕ → W → Outcome (ℕ × Option AfcClient × W)
  afc_truncate client none newsize w = fault null_deref
  afc_truncate none (some path) newsize w = done (Error.invalid_arg, none, w)
  afc_truncate (some c) (some path) newsize w =
      if not c.connection
      then done (Error.invalid_arg, some c, w)
      else command Op.truncate (le_bytes 8 newsize ++ terminated path) (8 + length path + 1)
          (λ ret. ret) c w

  pub afc_make_link :
      Option AfcClient
      → ℕ
      → Option CString
      → Option CString
      → W
      → Outcome (ℕ × Option AfcClient × W)
  afc_make_link (some c) linktype (some target) (some linkname) w =
      if not c.connection
      then done (Error.invalid_arg, some c, w)
      else command Op.make_link (le_bytes 8 linktype ++ (terminated target ++ terminated linkname))
          (8 + length linkname + 1 + length target + 1) (λ ret. ret) c w
  afc_make_link none linktype (some target) (some linkname) w = done (Error.invalid_arg, none, w)
  afc_make_link client linktype target linkname w = fault null_deref

  pub afc_set_file_time :
      Option AfcClient → Option CString → ℕ → W → Outcome (ℕ × Option AfcClient × W)
  afc_set_file_time client none mtime w = fault null_deref
  afc_set_file_time none (some path) mtime w = done (Error.invalid_arg, none, w)
  afc_set_file_time (some c) (some path) mtime w =
      if not c.connection
      then done (Error.invalid_arg, some c, w)
      else command Op.set_file_time (le_bytes 8 mtime ++ terminated path) (8 + length path + 1)
          (λ ret. ret) c w
