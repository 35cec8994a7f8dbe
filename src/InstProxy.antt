-- ===== src/InstProxy.antt =====
-- src/installation_proxy.c and .h, include/libimobiledevice/installation_proxy.h: the error codes, the
-- client and its mutex, and the life of a client.
pub mod Strings
pub mod Command
pub mod Operation
pub mod Browse
pub mod Options
pub mod Tests
use libiphone_debian.Common.{false, true, Bool, List, Option, ℕ, none, some, if◌then◌else◌}
use libiphone_debian.Common.CString.{CString}
use libiphone_debian.Common.Outcome.{Outcome, done, fault, deadlock}
use libiphone_debian.Idevice.{Device}
use libiphone_debian.DeviceLink.{went_well}
use libiphone_debian.PropertyList.{PlistClient, PlistServiceError}

-- instproxy_error_t
pub data InstproxyError : Type 0 where
  success : InstproxyError
  invalid_arg : InstproxyError
  plist_error : InstproxyError
  conn_failed : InstproxyError
  op_in_progress : InstproxyError
  op_failed : InstproxyError
  unknown_error : InstproxyError

-- res == INSTPROXY_E_SUCCESS
abbrev pub is_success : InstproxyError → Bool
is_success InstproxyError.success = true
is_success _ = false

unfoldable pub instproxy_error : PlistServiceError → InstproxyError
instproxy_error PlistServiceError.success = InstproxyError.success
instproxy_error PlistServiceError.invalid_arg = InstproxyError.invalid_arg
instproxy_error PlistServiceError.plist_error = InstproxyError.plist_error
instproxy_error PlistServiceError.mux_error = InstproxyError.conn_failed
instproxy_error _ = InstproxyError.unknown_error

-- `locked` says whether the mutex is held, `status_updater` whether the pointer to the thread is set.
pub record InstproxyClient : Type 0 where
  pub parent : Option PlistClient
  pub locked : Bool
  pub status_updater : Bool

-- What the client calls: the functions property_list_service_*, and g_thread_create, which may fail.
pub record InstproxyPort (P W : Type 0) : Type 0 where
  pub client_new : Option Device → ℕ → W → PlistServiceError × Option PlistClient × W
  pub client_free : Option PlistClient → W → PlistServiceError × W
  pub send_xml : Option PlistClient → Option P → W → PlistServiceError × W
  pub receive : Option PlistClient → W → Outcome (PlistServiceError × Option P × W)
  pub receive_with_timeout : Option PlistClient → ℕ → W → Outcome (PlistServiceError × Option P × W)
  pub thread_create : W → Bool × W

-- A mutex that is held is held by the thread itself, which then waits for ever.
unfoldable pub instproxy_lock : InstproxyClient → Outcome InstproxyClient
instproxy_lock client =
    if client.locked then fault deadlock else done (record client { locked = true })

unfoldable pub instproxy_unlock : InstproxyClient → InstproxyClient
instproxy_unlock client = record client { locked = false }

module _ {P W : Type 0} (port : InstproxyPort P W) where
  abbrev made :
      PlistServiceError × Option PlistClient × W → InstproxyError × Option InstproxyClient × W
  made (e, parent, w) =
      if went_well e
      then (
        InstproxyError.success,
        some (record { parent = parent; locked = false; status_updater = false }),
        w,
      )
      else (InstproxyError.conn_failed, none, w)

  -- The second result is what is stored in *client.
  pub instproxy_client_new : Option Device → ℕ → W → InstproxyError × Option InstproxyClient × W
  instproxy_client_new none port_number w = (InstproxyError.invalid_arg, none, w)
  instproxy_client_new (some device) port_number w =
      made (port.client_new (some device) port_number w)

  -- `join` is what the status updater still does until it ends, where one runs.
  pub instproxy_client_free : Option InstproxyClient → (W → W) → W → InstproxyError × W
  instproxy_client_free none join w = (InstproxyError.invalid_arg, w)
  instproxy_client_free (some client) join w =
      let (e, w') = port.client_free client.parent w in
      (InstproxyError.success, if client.status_updater then join w' else w')
