-- ===== src/Lockdown/Pairing.antt =====
-- src/lockdown.c: pair records, and the certificates in them.
pub mod Pair
use libiphone_debian.Lockdown.{is_success, LockdownError, Userpref, UserprefError}
use libiphone_debian.Common.Outcome.{Fault, Outcome, done, fault, ◌>>=◌, null_deref}
use libiphone_debian.Common.{
  none, some, true, false, Bool, List, Option, if◌then◌else◌, ℕ, ◌==◌, ◌||◌, [], length,
}
use libiphone_debian.Common.CString.{CString}
use libiphone_debian.Plist.{PlistNodes, insert_item}
use libiphone_debian.Lockdown.Strings.{
  device_certificate_text, host_certificate_text, host_id_text, root_certificate_text,
}

-- struct lockdownd_pair_record
pub record PairRecord : Type 0 where
  pub device_certificate : Option CString
  pub host_certificate : Option CString
  pub host_id : Option CString
  pub root_certificate : Option CString

-- The certificates that lockdownd_gen_pair_cert stores.
pub record Certificates : Type 0 where
  pub device_cert : List ℕ
  pub host_cert : List ℕ
  pub root_cert : List ℕ

-- GnuTLS and libtasn1: the DER bytes in a PEM public key, the modulus and the exponent in them, the key
-- made of those, and the PEM certificate for that key which the root key signs.
pub record PairCrypto : Type 0 where
  pub pem_decode : List ℕ → Option (List ℕ)
  pub read_key : List ℕ → Option (List ℕ × List ℕ)
  pub import_rsa : List ℕ → List ℕ → Option (List ℕ)
  pub device_cert : List ℕ → List ℕ → List ℕ → List ℕ

-- The switch on the result of src/userpref.c, where the result so far is SUCCESS.
abbrev pub cert_error : UserprefError → LockdownError
cert_error UserprefError.invalid_arg = LockdownError.invalid_arg
cert_error UserprefError.invalid_conf = LockdownError.invalid_conf
cert_error UserprefError.ssl_error = LockdownError.ssl_error
cert_error _ = LockdownError.success

abbrev pub userpref_succeeded : UserprefError → Bool
userpref_succeeded UserprefError.success = true
userpref_succeeded _ = false

-- The modulus and the exponent of a public key.
abbrev pub key_parts : PairCrypto → List ℕ → Option (List ℕ × List ℕ)
key_parts crypto key = elim (crypto.pem_decode key) [ none ↦ none | some der ↦ crypto.read_key der ]

module _ {W : Type 0} (prefs : Userpref W) (crypto : PairCrypto) where
  abbrev exported :
      List ℕ → UserprefError × (List ℕ × List ℕ) × W → LockdownError × Option Certificates × W
  exported cert (u, (root, host), w) =
      if userpref_succeeded u
      then (
        LockdownError.success,
        some (record { device_cert = cert; host_cert = host; root_cert = root }),
        w,
      )
      else (cert_error u, none, w)

  abbrev signed :
      List ℕ → UserprefError × (List ℕ × List ℕ) × W → LockdownError × Option Certificates × W
  signed key (u, (root_key, root_cert), w) =
      if userpref_succeeded u
      then exported (crypto.device_cert key root_key root_cert) (prefs.get_certs_as_pem w)
      else (cert_error u, none, w)

  -- A key that is not imported leaves SUCCESS, with no certificates, and so does an empty part of it.
  abbrev imported : Option (List ℕ) → W → LockdownError × Option Certificates × W
  imported none w = (LockdownError.success, none, w)
  imported (some key) w = signed key (prefs.get_keys_and_certs w)

  abbrev certified : Option (List ℕ × List ℕ) → W → LockdownError × Option Certificates × W
  certified none w = (LockdownError.unknown_error, none, w)
  certified (some (modulus, exponent)) w =
      if length modulus == 0 || length exponent == 0
      then (LockdownError.success, none, w)
      else imported (crypto.import_rsa modulus exponent) w

  -- The second result is what is stored in the three certificates, if anything is.
  unfoldable pub lockdownd_gen_pair_cert :
      Option (List ℕ) → W → LockdownError × Option Certificates × W
  lockdownd_gen_pair_cert none w = (LockdownError.invalid_arg, none, w)
  lockdownd_gen_pair_cert (some public_key) w = certified (key_parts crypto public_key) w

  -- The HostID of a pair record: the one that is given, or the host's own.
  abbrev chosen_host_id : Option CString → W → Option CString × W
  chosen_host_id (some host_id) w = (some host_id, w)
  chosen_host_id none w = prefs.get_host_id w

  -- Certificates that were not stored are NULL with the length 0.
  abbrev certs_or_empty : Option Certificates → Certificates
  certs_or_empty (some certs) = certs
  certs_or_empty none = record { device_cert = []; host_cert = []; root_cert = [] }

module _ {P W : Type 0} (nodes : PlistNodes P) (prefs : Userpref W) (crypto : PairCrypto) where
  -- A dictionary with the four entries of a pair record.
  abbrev pub pair_record_dict : Certificates → CString → P
  pair_record_dict certs host_id = nodes.new_dict (
      insert_item root_certificate_text (nodes.new_data certs.root_cert) (
        insert_item host_id_text (nodes.new_string host_id) (
          insert_item host_certificate_text (nodes.new_data certs.host_cert)
            (insert_item device_certificate_text (nodes.new_data certs.device_cert) []))))

  -- plist_new_string reads its argument.
  abbrev with_host_id : Certificates → Option CString × W → Outcome (P × W)
  with_host_id certs (none, w) = fault Fault.null_deref
  with_host_id certs (some host_id, w) = done (pair_record_dict certs host_id, w)

  -- strlen is called on each certificate.
  abbrev record_plist :
      PairRecord → Option CString → Option CString → Option CString → W → Outcome (P × W)
  record_plist pair_record (some device) (some host) (some root) w =
      with_host_id (record { device_cert = device; host_cert = host; root_cert = root })
        (chosen_host_id prefs crypto pair_record.host_id w)
  record_plist pair_record device host root w = fault Fault.null_deref

  abbrev some_plist : P × W → Option P × W
  some_plist (p, w) = (some p, w)

  unfoldable pub lockdownd_pair_record_to_plist : Option PairRecord → W → Outcome (Option P × W)
  lockdownd_pair_record_to_plist none w = done (none, w)
  lockdownd_pair_record_to_plist (some pair_record) w =
      record_plist pair_record pair_record.device_certificate pair_record.host_certificate
        pair_record.root_certificate w
      >>= λ x. done (some_plist x)

  abbrev recorded :
      Option CString
      → LockdownError × Option Certificates × W
      → Outcome (LockdownError × Option P × W)
  recorded host_id (e, certs, w) =
      let plist =
        with_host_id (certs_or_empty prefs crypto certs) (chosen_host_id prefs crypto host_id w)
        >>= λ x. done (e, some x.0, x.1) in
      if is_success e then plist else done (e, none, w)

  -- The second result is what is stored in *pair_record_plist.
  unfoldable pub generate_pair_record_plist :
      Option (List ℕ) → Option CString → W → Outcome (LockdownError × Option P × W)
  generate_pair_record_plist public_key host_id w =
      recorded host_id (lockdownd_gen_pair_cert prefs crypto public_key w)
