-- ===== src/MobileBackup.antt =====
-- src/mobilebackup.c and .h, include/libimobiledevice/mobilebackup.h: the error codes, the client and its
-- life, and the transfer of plists.
pub mod Strings
pub mod Message
pub mod Requests
pub mod Restore
pub mod Tests
use libiphone_debian.Common.{
  false, true, Bool, List, Option, ℕ, none, some, if◌then◌else◌, is_some, ◌==◌,
}
use libiphone_debian.Common.CString.{CString}
use libiphone_debian.Common.Outcome.{Outcome, done, ◌>>=◌}
use libiphone_debian.Idevice.{Device, Usbmuxd, Gnutls}
use libiphone_debian.Plist.{PlistNodes}
use libiphone_debian.DeviceLink.{DeviceLinkClient, DeviceLinkError, PlistPort}
use libiphone_debian.DeviceLink.Service.{
  device_link_service_disconnect, device_link_service_receive, device_link_service_send,
}
use libiphone_debian.DeviceLink.Exchange.{device_link_service_version_exchange}
use libiphone_debian.DeviceLink.Client.{
  device_link_service_client_new, device_link_service_client_free,
}

-- mobilebackup_error_t
pub data MobilebackupError : Type 0 where
  success : MobilebackupError
  invalid_arg : MobilebackupError
  plist_error : MobilebackupError
  mux_error : MobilebackupError
  bad_version : MobilebackupError
  reply_not_ok : MobilebackupError
  unknown_error : MobilebackupError

-- err == MOBILEBACKUP_E_SUCCESS
abbrev pub is_success : MobilebackupError → Bool
is_success MobilebackupError.success = true
is_success _ = false

unfoldable pub mobilebackup_error : DeviceLinkError → MobilebackupError
mobilebackup_error DeviceLinkError.success = MobilebackupError.success
mobilebackup_error DeviceLinkError.invalid_arg = MobilebackupError.invalid_arg
mobilebackup_error DeviceLinkError.plist_error = MobilebackupError.plist_error
mobilebackup_error DeviceLinkError.mux_error = MobilebackupError.mux_error
mobilebackup_error DeviceLinkError.bad_version = MobilebackupError.bad_version
mobilebackup_error DeviceLinkError.unknown_error = MobilebackupError.unknown_error

pub record MobilebackupClient : Type 0 where
  pub parent : Option DeviceLinkClient

module _ {P W : Type 0} (nodes : PlistNodes P) (port : PlistPort P W) where
  abbrev converted : DeviceLinkError × Option P × W → MobilebackupError × Option P × W
  converted (e, plist, w) = (mobilebackup_error e, plist, w)

  -- `plist` is `none` for a NULL pointer; the second result is what *plist holds.
  unfoldable pub mobilebackup_receive :
      Option MobilebackupClient → Option (Option P) → W → Outcome (MobilebackupError × Option P × W)
  mobilebackup_receive none none w = done (MobilebackupError.invalid_arg, none, w)
  mobilebackup_receive none (some before) w = done (MobilebackupError.invalid_arg, before, w)
  mobilebackup_receive (some client) plist w =
      device_link_service_receive nodes port client.parent plist w >>= λ x. done (converted x)

  pub mobilebackup_send : Option MobilebackupClient → Option P → W → MobilebackupError × W
  mobilebackup_send (some client) (some plist) w =
      let (e, w') = device_link_service_send nodes port client.parent (some plist) w in
      (mobilebackup_error e, w')
  mobilebackup_send client plist w = (MobilebackupError.invalid_arg, w)

module _ {P W : Type 0} (nodes : PlistNodes P) (port : PlistPort P W) (mux : Usbmuxd W)
    (tls : Gnutls W) where
  unfoldable pub mobilebackup_client_free : Option MobilebackupClient → W → MobilebackupError × W
  mobilebackup_client_free none w = (MobilebackupError.invalid_arg, w)
  mobilebackup_client_free (some client) w =
      let (e, w1) = device_link_service_disconnect nodes port client.parent none w in
      let (e2, w2) = device_link_service_client_free mux tls client.parent w1 in
      if is_some client.parent then (mobilebackup_error e2, w2) else (MobilebackupError.success, w)

  -- The client is handed out if the versions were exchanged, and freed if not.
  abbrev exchanged :
      MobilebackupClient → DeviceLinkError × W → MobilebackupError × Option MobilebackupClient × W
  exchanged client (e, w) =
      let (e2, w2) = mobilebackup_client_free (some client) w in
      if is_success (mobilebackup_error e)
      then (mobilebackup_error e, some client, w)
      else (mobilebackup_error e, none, w2)

  abbrev linked :
      DeviceLinkError × Option DeviceLinkClient × W
      → Outcome (MobilebackupError × Option MobilebackupClient × W)
  linked (e, link, w) =
      let client : MobilebackupClient = record { parent = link } in
      let exchange = device_link_service_version_exchange nodes port link 100 0 w >>= λ x.
      done (exchanged client x) in
      if is_success (mobilebackup_error e) then exchange else done (mobilebackup_error e, none, w)

  -- `client` is `none` for a NULL pointer, and `some none` for a pointer to NULL.
  pub mobilebackup_client_new :
      Option Device
      → ℕ
      → Option (Option MobilebackupClient)
      → W
      → Outcome (MobilebackupError × Option MobilebackupClient × W)
  mobilebackup_client_new (some device) port_number (some none) w =
      let made =
        linked (device_link_service_client_new mux tls (some device) port_number (some none) w) in
      if port_number == 0 then done (MobilebackupError.invalid_arg, none, w) else made
  mobilebackup_client_new device port_number (some (some client)) w =
      done (MobilebackupError.invalid_arg, some client, w)
  mobilebackup_client_new device port_number client w =
      done (MobilebackupError.invalid_arg, none, w)
