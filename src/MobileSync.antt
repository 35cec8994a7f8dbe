-- ===== src/MobileSync.antt =====
-- src/mobilesync.c and .h, include/libimobiledevice/mobilesync.h: the error codes and the client.
pub mod Strings
pub mod Transfer
pub mod Session
pub mod Life
pub mod Changes
pub mod Actions
pub mod Phase
pub mod Tests
use libiphone_debian.Common.{false, true, Bool, List, Option, ℕ}
use libiphone_debian.Common.CString.{CString}
use libiphone_debian.DeviceLink.{DeviceLinkClient, DeviceLinkError}

-- mobilesync_error_t
pub data MobilesyncError : Type 0 where
  success : MobilesyncError
  invalid_arg : MobilesyncError
  plist_error : MobilesyncError
  mux_error : MobilesyncError
  bad_version : MobilesyncError
  sync_refused : MobilesyncError
  cancelled : MobilesyncError
  wrong_direction : MobilesyncError
  not_ready : MobilesyncError
  unknown_error : MobilesyncError

-- err == MOBILESYNC_E_SUCCESS
abbrev pub is_success : MobilesyncError → Bool
is_success MobilesyncError.success = true
is_success _ = false

unfoldable pub mobilesync_error : DeviceLinkError → MobilesyncError
mobilesync_error DeviceLinkError.success = MobilesyncError.success
mobilesync_error DeviceLinkError.invalid_arg = MobilesyncError.invalid_arg
mobilesync_error DeviceLinkError.plist_error = MobilesyncError.plist_error
mobilesync_error DeviceLinkError.mux_error = MobilesyncError.mux_error
mobilesync_error DeviceLinkError.bad_version = MobilesyncError.bad_version
mobilesync_error DeviceLinkError.unknown_error = MobilesyncError.unknown_error

-- mobilesync_sync_direction_t
pub data SyncDirection : Type 0 where
  device_to_computer : SyncDirection
  computer_to_device : SyncDirection

-- mobilesync_sync_type_t
pub data SyncType : Type 0 where
  fast : SyncType
  slow : SyncType
  reset : SyncType

pub record MobilesyncClient : Type 0 where
  pub parent : Option DeviceLinkClient
  pub direction : SyncDirection
  pub data_class : Option CString

-- mobilesync_anchors
pub record Anchors : Type 0 where
  pub device_anchor : Option CString
  pub computer_anchor : Option CString
