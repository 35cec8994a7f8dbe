-- ===== src/Lockdown.antt =====
-- src/lockdown.c and .h, include/libimobiledevice/lockdown.h: the error codes, the client, and what
-- the client calls of the property list service.
pub mod Strings
pub mod Request
pub mod Session
pub mod Values
pub mod Services
pub mod Classes
pub mod Pairing
pub mod Handshake
pub mod Tests
use libiphone_debian.Common.{false, true, Bool, List, Option, ℕ}
use libiphone_debian.Common.CString.{CString}
use libiphone_debian.Common.Outcome.{Outcome}
use libiphone_debian.Idevice.{Device}
use libiphone_debian.PropertyList.{PlistClient, PlistServiceError}

-- lockdownd_error_t
pub data LockdownError : Type 0 where
  success : LockdownError
  invalid_arg : LockdownError
  invalid_conf : LockdownError
  plist_error : LockdownError
  pairing_failed : LockdownError
  ssl_error : LockdownError
  dict_error : LockdownError
  start_service_failed : LockdownError
  not_enough_data : LockdownError
  set_value_prohibited : LockdownError
  get_value_prohibited : LockdownError
  remove_value_prohibited : LockdownError
  mux_error : LockdownError
  activation_failed : LockdownError
  password_protected : LockdownError
  no_running_session : LockdownError
  invalid_host_id : LockdownError
  invalid_service : LockdownError
  invalid_activation_record : LockdownError
  unknown_error : LockdownError

-- ret == LOCKDOWN_E_SUCCESS
abbrev pub is_success : LockdownError → Bool
is_success LockdownError.success = true
is_success _ = false

-- The pointer session_id: NULL, a string that it owns, or a string that was freed.
pub data SessionId : Type 0 where
  unset : SessionId
  live : CString → SessionId
  freed : SessionId

-- client->session_id != NULL, which a freed string does not change
abbrev pub has_session : SessionId → Bool
has_session SessionId.unset = false
has_session _ = true

pub record LockdownClient : Type 0 where
  pub parent : Option PlistClient
  pub ssl_enabled : Bool
  pub session_id : SessionId
  pub uuid : Option CString
  pub label : Option CString

-- What the client calls of the property list service: the functions property_list_service_*, where
-- the SSL calls change the client that they are given.
pub record LockdownPort (P W : Type 0) : Type 0 where
  pub client_new : Option Device → ℕ → W → PlistServiceError × Option PlistClient × W
  pub client_free : Option PlistClient → W → PlistServiceError × W
  pub send_xml : Option PlistClient → Option P → W → PlistServiceError × W
  pub receive :
      Option PlistClient → Option (Option P) → W → Outcome (PlistServiceError × Option P × W)
  pub enable_ssl : Option PlistClient → W → PlistServiceError × Option PlistClient × W
  pub disable_ssl : Option PlistClient → W → PlistServiceError × Option PlistClient × W

-- userpref_error_t
pub data UserprefError : Type 0 where
  success : UserprefError
  invalid_arg : UserprefError
  invalid_conf : UserprefError
  ssl_error : UserprefError
  unknown_error : UserprefError

-- What the client calls of src/userpref.c: the identity of the host, the public keys of the devices
-- that it is paired with, and its own keys and certificates. `root_key` and `root_cert` come from
-- userpref_get_keys_and_certs; the two certificates as PEM from userpref_get_certs_as_pem.
pub record Userpref (W : Type 0) : Type 0 where
  pub get_host_id : W → Option CString × W
  pub has_device_public_key : Option CString → W → Bool
  pub set_device_public_key : Option CString → Option (List ℕ) → W → W
  pub remove_device_public_key : Option CString → W → W
  pub get_keys_and_certs : W → UserprefError × (List ℕ × List ℕ) × W
  pub get_certs_as_pem : W → UserprefError × (List ℕ × List ℕ) × W
