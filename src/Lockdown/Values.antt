-- ===== src/Lockdown/Values.antt =====
-- src/lockdown.c: the type of the daemon, and the preferences.
use libiphone_debian.Common.{not, ℕ, none, some, List, Option, if◌then◌else◌}
use libiphone_debian.Common.CString.{CString}
use libiphone_debian.Common.Outcome.{Outcome, done, ◌>>=◌}
use libiphone_debian.Plist.{Node, PlistNodes, insert_item, get_item, string_value}
use libiphone_debian.Lockdown.{LockdownError, LockdownClient, LockdownPort, is_success}
use libiphone_debian.Lockdown.Request.{
  is_result_success, lockdown_check_result, plain_request, asked, asked_checked, with_request,
  labelled, insert_given,
}
use libiphone_debian.Lockdown.Strings.{
  query_type_text, type_text, domain_text, key_text, get_value_text, value_text, set_value_text,
  remove_value_text, unique_device_id_text, device_public_key_text, device_name_text,
}

-- plist_get_data_val into a pointer that is NULL
abbrev pub data_of : {P : Type 0} → Node P → Option (List ℕ)
data_of (Node.bytes bs) = some bs
data_of _ = none

module _ {P W : Type 0} (nodes : PlistNodes P) (port : LockdownPort P W) where
  abbrev typed : LockdownError → Option P → W → LockdownError × Option CString × W
  typed e none w = (e, none, w)
  typed e (some answer) w =
      if not (is_success e)
      then (e, none, w)
      else if is_result_success (lockdown_check_result nodes (some answer) (some query_type_text))
      then (LockdownError.success, string_value nodes (get_item nodes answer type_text), w)
      else (LockdownError.unknown_error, none, w)

  abbrev query_answered :
      LockdownError × Option P × W → Outcome (LockdownError × Option CString × W)
  query_answered (e, answer, w) = done (typed e answer w)

  -- The second result is what is stored in *type, where `type` is set.
  unfoldable pub lockdownd_query_type :
      Option LockdownClient → W → Outcome (LockdownError × Option CString × W)
  lockdownd_query_type none w = done (LockdownError.invalid_arg, none, w)
  lockdownd_query_type (some client) w =
      asked port client (plain_request nodes client query_type_text) w >>= query_answered

  -- A dictionary with the label, and the domain and the key that are given.
  abbrev pub addressed : LockdownClient → Option CString → Option CString → List (CString × P)
  addressed client domain key =
      insert_given nodes key_text key
        (insert_given nodes domain_text domain (labelled nodes client))

  -- The check of an answer sets its result to SUCCESS, which it is already.
  abbrev checked : CString → LockdownError → Option P → LockdownError
  checked name e answer =
      if is_result_success (lockdown_check_result nodes answer (some name))
      then LockdownError.success
      else e

  abbrev value_answered : LockdownError × Option P × W → LockdownError × Option P × W
  value_answered (e, answer, w) =
      let ret = checked get_value_text e answer in
      if not (is_success e)
      then (e, none, w)
      else if not (is_success ret)
      then (ret, none, w)
      else (ret, elim answer [ none ↦ none | some a ↦ get_item nodes a value_text ], w)

  abbrev pub get_request : LockdownClient → Option CString → Option CString → P
  get_request client domain key =
      nodes.new_dict (with_request nodes get_value_text (addressed client domain key))

  -- The second result is what is stored in *value, if anything is.
  unfoldable pub lockdownd_get_value :
      Option LockdownClient
      → Option CString
      → Option CString
      → W
      → Outcome (LockdownError × Option P × W)
  lockdownd_get_value none domain key w = done (LockdownError.invalid_arg, none, w)
  lockdownd_get_value (some client) domain key w =
      asked_checked port client (get_request client domain key) w >>= λ x. done (value_answered x)

  abbrev change_answered : CString → LockdownError × Option P × W → LockdownError × W
  change_answered name (e, answer, w) = (if is_success e then checked name e answer else e, w)

  abbrev pub set_request : LockdownClient → Option CString → Option CString → P → P
  set_request client domain key value = nodes.new_dict (
      insert_item value_text value
        (with_request nodes set_value_text (addressed client domain key)))

  unfoldable pub lockdownd_set_value :
      Option LockdownClient
      → Option CString
      → Option CString
      → Option P
      → W
      → Outcome (LockdownError × W)
  lockdownd_set_value (some client) domain key (some value) w =
      asked_checked port client (set_request client domain key value) w >>= λ x.
      done (change_answered set_value_text x)
  lockdownd_set_value client domain key value w = done (LockdownError.invalid_arg, w)

  abbrev pub remove_request : LockdownClient → Option CString → Option CString → P
  remove_request client domain key =
      nodes.new_dict (with_request nodes remove_value_text (addressed client domain key))

  unfoldable pub lockdownd_remove_value :
      Option LockdownClient → Option CString → Option CString → W → Outcome (LockdownError × W)
  lockdownd_remove_value none domain key w = done (LockdownError.invalid_arg, w)
  lockdownd_remove_value (some client) domain key w =
      asked_checked port client (remove_request client domain key) w >>= λ x.
      done (change_answered remove_value_text x)

  abbrev named : LockdownError × Option P × W → LockdownError × Option CString × W
  named (e, value, w) = (e, if is_success e then string_value nodes value else none, w)

  -- The string that the device has for one of its own keys.
  abbrev pub device_string :
      CString → Option LockdownClient → W → Outcome (LockdownError × Option CString × W)
  device_string key client w = lockdownd_get_value client none (some key) w >>= λ x. done (named x)

  pub lockdownd_get_device_uuid :
      Option LockdownClient → W → Outcome (LockdownError × Option CString × W)
  lockdownd_get_device_uuid client w = device_string unique_device_id_text client w

  pub lockdownd_get_device_name :
      Option LockdownClient → W → Outcome (LockdownError × Option CString × W)
  lockdownd_get_device_name client w = device_string device_name_text client w

  abbrev data_value : Option P → Option (List ℕ)
  data_value none = none
  data_value (some p) = data_of (nodes.view p)

  abbrev keyed : LockdownError × Option P × W → LockdownError × Option (List ℕ) × W
  keyed (e, value, w) = (e, if is_success e then data_value value else none, w)

  unfoldable pub lockdownd_get_device_public_key :
      Option LockdownClient → W → Outcome (LockdownError × Option (List ℕ) × W)
  lockdownd_get_device_public_key client w =
      lockdownd_get_value client none (some device_public_key_text) w >>= λ x. done (keyed x)
