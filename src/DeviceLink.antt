-- ===== src/DeviceLink.antt =====
-- src/device_link_service.c and .h: the messages of the device link service.
use libiphone_debian.Common.{false, true, Bool, Option}
use libiphone_debian.PropertyList.{PlistClient, PlistServiceError}
use libiphone_debian.Common.Outcome.{Outcome}
pub mod Client
pub mod Messages
pub mod Service
pub mod Exchange
pub mod Tests

-- device_link_service_error_t
pub data DeviceLinkError : Type 0 where
  success : DeviceLinkError
  invalid_arg : DeviceLinkError
  plist_error : DeviceLinkError
  mux_error : DeviceLinkError
  bad_version : DeviceLinkError
  unknown_error : DeviceLinkError

pub record DeviceLinkClient : Type 0 where
  pub parent : Option PlistClient

-- What a service calls of the property list service, with the arguments: a send, which is
-- property_list_service_send_binary_plist here, and property_list_service_receive_plist.
pub record PlistPort (P W : Type 0) : Type 0 where
  pub send : Option PlistClient → Option P → W → PlistServiceError × W
  pub receive :
      Option PlistClient → Option (Option P) → W → Outcome (PlistServiceError × Option P × W)

-- res == PROPERTY_LIST_SERVICE_E_SUCCESS
abbrev pub went_well : PlistServiceError → Bool
went_well PlistServiceError.success = true
went_well _ = false
