-- ===== src/PropertyList.antt =====
-- src/property_list_service.c and .h: the error codes, the client, and libplist as a parameter.
pub mod Client
pub mod Send
pub mod Receive
pub mod Tests
use libiphone_debian.Common.{ℕ, Option, List}
use libiphone_debian.Idevice.{IdeviceError, Connection}

-- property_list_service_error_t
pub data PlistServiceError : Type 0 where
  success : PlistServiceError
  invalid_arg : PlistServiceError
  plist_error : PlistServiceError
  mux_error : PlistServiceError
  ssl_error : PlistServiceError
  unknown_error : PlistServiceError

pub record PlistClient : Type 0 where
  pub connection : Option Connection

-- libplist: a plist as binary or as XML, no bytes if it cannot be converted; and back, where `none`
-- says that the pointer to the plist is left as it was.
pub record Libplist (P : Type 0) : Type 0 where
  pub to_bin : P → List ℕ
  pub to_xml : P → List ℕ
  pub from_bin : List ℕ → Option P
  pub from_xml : List ℕ → Option P

unfoldable pub idevice_to_property_list_service_error : IdeviceError → PlistServiceError
idevice_to_property_list_service_error IdeviceError.success = PlistServiceError.success
idevice_to_property_list_service_error IdeviceError.invalid_arg = PlistServiceError.invalid_arg
idevice_to_property_list_service_error IdeviceError.ssl_error = PlistServiceError.ssl_error
idevice_to_property_list_service_error _ = PlistServiceError.unknown_error
