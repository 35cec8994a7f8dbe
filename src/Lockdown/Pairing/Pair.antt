-- ===== src/Lockdown/Pairing/Pair.antt =====
-- src/lockdown.c: lockdownd_do_pair, and the three calls of it.
use libiphone_debian.Common.{
  none, some, true, false, Bool, List, Option, if◌then◌else◌, ℕ, ◌&&◌, is_some,
}
use libiphone_debian.Common.CString.{CString, string_eq}
use libiphone_debian.Common.Outcome.{Outcome, done, ◌>>=◌}
use libiphone_debian.Plist.{PlistNodes, insert_item, get_item, string_value}
use libiphone_debian.Lockdown.{LockdownError, LockdownClient, LockdownPort, Userpref, is_success}
use libiphone_debian.Lockdown.Session.{is_text}
use libiphone_debian.Lockdown.Values.{lockdownd_get_device_public_key}
use libiphone_debian.Lockdown.Pairing.{
  PairRecord, PairCrypto, lockdownd_pair_record_to_plist, generate_pair_record_plist,
}
use libiphone_debian.Lockdown.Request.{
  is_result_success, lockdown_check_result, asked_checked, with_request, labelled,
}
use libiphone_debian.Lockdown.Strings.{
  pair_text, validate_pair_text, unpair_text, pair_record_text, error_text, password_protected_text,
  invalid_host_id_text,
}

-- The pair record that goes into the request: whether it is the caller's, the device's public key where
-- it is not, and its plist.
pub record Chosen (P : Type 0) : Type 0 where
  pub external : Bool
  pub public_key : Option (List ℕ)
  pub plist : Option P

module _ {P W : Type 0} (nodes : PlistNodes P) (port : LockdownPort P W) (prefs : Userpref W)
    (crypto : PairCrypto) where
  abbrev generated : Option (List ℕ) → LockdownError × Option P × W → LockdownError × Chosen P × W
  generated public_key (e, plist, w) =
      (e, record { external = false; public_key = public_key; plist = plist }, w)

  abbrev for_key : LockdownError × Option (List ℕ) × W → Outcome (LockdownError × Chosen P × W)
  for_key (e, public_key, w) =
      let plist = generate_pair_record_plist nodes prefs crypto public_key none w >>= λ x.
      done (generated public_key x) in
      if is_success e
      then plist
      else done (e, record { external = false; public_key = none; plist = none }, w)

  -- The host's own pair record, for the key that the device sends.
  abbrev own_record : LockdownClient → W → Outcome (LockdownError × Chosen P × W)
  own_record client w =
      lockdownd_get_device_public_key nodes port (some client) w >>= λ x. for_key x

  abbrev external_record : Option P × W → LockdownError × Chosen P × W
  external_record (plist, w) =
      (LockdownError.success, record { external = true; public_key = none; plist = plist }, w)

  abbrev is_complete : PairRecord → Bool
  is_complete r =
      is_some r.device_certificate && (is_some r.host_certificate && is_some r.root_certificate)

  -- A record with a HostID is the caller's; its certificates have to be there.
  abbrev choose_record :
      LockdownClient → Option PairRecord → W → Outcome (LockdownError × Chosen P × W)
  choose_record client none w = own_record client w
  choose_record client (some r) w =
      let external = lockdownd_pair_record_to_plist nodes prefs crypto (some r) w >>= λ x.
      done (external_record x) in
      let own = own_record client w in
      if is_some r.host_id
      then (if is_complete r
          then external
          else done (
            LockdownError.plist_error,
            record { external = true; public_key = none; plist = none },
            w,
          ))
      else own

  -- The request that the answer has to name; the device answers Unpair with another.
  abbrev expected : CString → Option CString
  expected verb = if string_eq verb unpair_text then none else some verb

  -- What a pairing that succeeded changes in the host's configuration.
  abbrev pub remembered : Option CString → CString → Chosen P → W → W
  remembered uuid verb chosen w =
      if chosen.external
      then w
      else if string_eq unpair_text verb
      then prefs.remove_device_public_key uuid w
      else prefs.set_device_public_key uuid chosen.public_key w

  abbrev pub pair_error : P → LockdownError
  pair_error answer =
      let error = string_value nodes (get_item nodes answer error_text) in
      if is_text password_protected_text error
      then LockdownError.password_protected
      else if is_text invalid_host_id_text error
      then LockdownError.invalid_host_id
      else LockdownError.pairing_failed

  abbrev judged : LockdownClient → CString → Chosen P → P → W → LockdownError × W
  judged client verb chosen answer w =
      if is_result_success (lockdown_check_result nodes (some answer) (expected verb))
      then (LockdownError.success, remembered client.uuid verb chosen w)
      else (pair_error answer, w)

  abbrev pair_answered :
      LockdownClient → CString → Chosen P → LockdownError × Option P × W → LockdownError × W
  pair_answered client verb chosen (e, none, w) = (e, w)
  pair_answered client verb chosen (e, some answer, w) =
      if is_success e then judged client verb chosen answer w else (e, w)

  -- The pair record, if there is one, under its key.
  abbrev insert_record : Option P → List (CString × P) → List (CString × P)
  insert_record none es = es
  insert_record (some plist) es = insert_item pair_record_text plist es

  abbrev pub pair_request : LockdownClient → CString → Option P → P
  pair_request client verb plist =
      nodes.new_dict (with_request nodes verb (insert_record plist (labelled nodes client)))

  abbrev pair_with :
      LockdownClient → CString → LockdownError × Chosen P × W → Outcome (LockdownError × W)
  pair_with client verb (e, chosen, w) =
      let paired = asked_checked port client (pair_request client verb chosen.plist) w >>= λ x.
      done (pair_answered client verb chosen x) in
      if is_success e then paired else done (e, w)

  unfoldable pub lockdownd_do_pair :
      Option LockdownClient → Option PairRecord → CString → W → Outcome (LockdownError × W)
  lockdownd_do_pair none pair_record verb w = done (LockdownError.invalid_arg, w)
  lockdownd_do_pair (some client) pair_record verb w =
      choose_record client pair_record w >>= λ x. pair_with client verb x

  unfoldable pub lockdownd_pair :
      Option LockdownClient → Option PairRecord → W → Outcome (LockdownError × W)
  lockdownd_pair client pair_record w = lockdownd_do_pair client pair_record pair_text w

  unfoldable pub lockdownd_validate_pair :
      Option LockdownClient → Option PairRecord → W → Outcome (LockdownError × W)
  lockdownd_validate_pair client pair_record w =
      lockdownd_do_pair client pair_record validate_pair_text w

  unfoldable pub lockdownd_unpair :
      Option LockdownClient → Option PairRecord → W → Outcome (LockdownError × W)
  lockdownd_unpair client pair_record w = lockdownd_do_pair client pair_record unpair_text w
