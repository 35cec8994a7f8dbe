-- ===== src/Idevice.antt =====
-- src/idevice.h and include/libimobiledevice/libimobiledevice.h: the device and the connection; and
-- what src/idevice.c calls of usbmuxd and gnutls, as records of functions on the state of the world.
pub mod Raw
pub mod Ssl
pub mod Transfer
pub mod Devices
pub mod Tests
use libiphone_debian.Common.{
  refl, inr, inl, ◌≡◌, ◌⊎◌, ℕ, ◌≤◌, Bool, true, false, Option, List, length,
}
use libiphone_debian.Common.CString.{CString}

-- idevice_error_t
pub data IdeviceError : Type 0 where
  success : IdeviceError
  invalid_arg : IdeviceError
  unknown_error : IdeviceError
  no_device : IdeviceError
  not_enough_data : IdeviceError
  bad_header : IdeviceError
  ssl_error : IdeviceError

-- res == IDEVICE_E_SUCCESS
abbrev pub succeeded : IdeviceError → Bool
succeeded IdeviceError.success = true
succeeded _ = false

-- enum connection_type, and any other value that the field may hold
pub data ConnectionType : Type 0 where
  usbmuxd : ConnectionType
  unknown : ConnectionType

pub ConnectionType-cases :
    (t : ConnectionType) → (t ≡ ConnectionType.usbmuxd) ⊎ (t ≡ ConnectionType.unknown)
ConnectionType-cases ConnectionType.usbmuxd = inl refl
ConnectionType-cases ConnectionType.unknown = inr refl

-- Handles of gnutls objects; 0 is NULL.
pub record SslData : Type 0 where
  pub certificate : ℕ
  pub session : ℕ
  pub root_privkey : ℕ
  pub root_cert : ℕ
  pub host_privkey : ℕ
  pub host_cert : ℕ

-- `socket` is what the field `data` holds.
pub record Connection : Type 0 where
  pub type : ConnectionType
  pub socket : ℕ
  pub ssl_data : Option SslData

-- `conn_data` is the handle that usbmuxd gave the device.
pub record Device : Type 0 where
  pub uuid : CString
  pub conn_type : ConnectionType
  pub conn_data : ℕ

-- usbmuxd_device_info_t; its handle is an int, and one that is not above 0 is 0 here.
pub record DeviceInfo : Type 0 where
  pub handle : ℕ
  pub uuid : CString

-- What a transfer of usbmuxd leaves: whether its result is 0 or above, and what it stored.
pub record Usbmuxd (W : Type 0) : Type 0 where
  pub subscribe : W → Bool × W
  pub unsubscribe : W → Bool × W
  -- `none` for a result below 0
  pub get_device_list : W → Option (List DeviceInfo) × W
  -- `none` for a result that is not above 0; the argument is `none` for NULL
  pub get_device_by_uuid : Option CString → W → Option DeviceInfo × W
  -- the socket, or `none` for a result below 0
  pub connect : ℕ → ℕ → W → Option ℕ × W
  pub disconnect : ℕ → W → W
  pub send : ℕ → List ℕ → W → Bool × ℕ × W
  pub recv : ℕ → ℕ → W → Bool × List ℕ × W
  pub recv_timeout : ℕ → ℕ → ℕ → W → Bool × List ℕ × W
  -- A receive stores no more than it is asked for.
  pub recv_le : (socket n : ℕ) (w : W) → length (recv socket n w).1 ≤ n
  pub recv_timeout_le :
      (socket n timeout : ℕ) (w : W) → length (recv_timeout socket n timeout w).1 ≤ n

-- The calls of gnutls that set a session up and return nothing that is read.
pub data Setup : Type 0 where
  global_init : Setup
  set_retrieve_function : (certificate : ℕ) → Setup
  cipher_set_priority : (session : ℕ) → Setup
  compression_set_priority : (session : ℕ) → Setup
  kx_set_priority : (session : ℕ) → Setup
  protocol_set_priority : (session : ℕ) → Setup
  mac_set_priority : (session : ℕ) → Setup
  credentials_set : (session certificate : ℕ) → Setup
  session_set_ptr : (session : ℕ) → Setup
  transport_set : (session : ℕ) → Setup
  -- userpref_get_keys_and_certs, which fills keys and certificates that are there
  get_keys_and_certs : (root_privkey root_cert host_privkey host_cert : ℕ) → Setup
  bye : (session : ℕ) → Setup

-- The kinds of objects that gnutls hands out and takes back.
pub data Kind : Type 0 where
  credentials : Kind
  session : Kind
  crt : Kind
  privkey : Kind

pub record Gnutls (W : Type 0) : Type 0 where
  pub allocate : Kind → W → ℕ × W
  pub release : Kind → ℕ → W → W
  pub setup : Setup → W → W
  -- whether the result is GNUTLS_E_SUCCESS
  pub handshake : ℕ → W → Bool × W
  -- the result, as the 64 bits of an ssize_t
  pub record_send : ℕ → List ℕ → W → ℕ × W
  -- what was received; a result of 0 or below is no bytes
  pub record_recv : ℕ → ℕ → W → List ℕ × W
  pub record_recv_le : (session n : ℕ) (w : W) → length (record_recv session n w).0 ≤ n
