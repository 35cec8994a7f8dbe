-- ===== src/MobileSync/Life.antt =====
-- src/mobilesync.c: the life of a client.
use libiphone_debian.Common.{none, some, Option, if◌then◌else◌, ℕ, ◌==◌}
use libiphone_debian.Common.Outcome.{Outcome, done, ◌>>=◌}
use libiphone_debian.Idevice.{Device, Usbmuxd, Gnutls}
use libiphone_debian.Plist.{PlistNodes}
use libiphone_debian.DeviceLink.{DeviceLinkClient, DeviceLinkError, PlistPort}
use libiphone_debian.DeviceLink.Service.{device_link_service_disconnect}
use libiphone_debian.DeviceLink.Exchange.{device_link_service_version_exchange}
use libiphone_debian.DeviceLink.Client.{
  device_link_service_client_new, device_link_service_client_free,
}
use libiphone_debian.MobileSync.{
  MobilesyncError, MobilesyncClient, SyncDirection, mobilesync_error, is_success,
}
use libiphone_debian.MobileSync.Strings.{all_done_text}

module _ {P W : Type 0} (nodes : PlistNodes P) (port : PlistPort P W) (mux : Usbmuxd W)
    (tls : Gnutls W) where
  unfoldable pub mobilesync_client_free : Option MobilesyncClient → W → MobilesyncError × W
  mobilesync_client_free none w = (MobilesyncError.invalid_arg, w)
  mobilesync_client_free (some client) w =
      let (e, w1) =
        device_link_service_disconnect nodes port client.parent (some all_done_text) w in
      let (e2, w2) = device_link_service_client_free mux tls client.parent w1 in
      (mobilesync_error e2, w2)

  -- The client is handed out if the versions were exchanged, and freed if not.
  abbrev exchanged :
      MobilesyncClient → DeviceLinkError × W → MobilesyncError × Option MobilesyncClient × W
  exchanged client (e, w) =
      let (e2, w2) = mobilesync_client_free (some client) w in
      if is_success (mobilesync_error e)
      then (mobilesync_error e, some client, w)
      else (mobilesync_error e, none, w2)

  abbrev linked :
      DeviceLinkError × Option DeviceLinkClient × W
      → Outcome (MobilesyncError × Option MobilesyncClient × W)
  linked (e, link, w) =
      let client : MobilesyncClient = record {
        parent = link;
        direction = SyncDirection.device_to_computer;
        data_class = none;
      } in
      let exchange = device_link_service_version_exchange nodes port link 100 100 w >>= λ x.
      done (exchanged client x) in
      if is_success (mobilesync_error e) then exchange else done (mobilesync_error e, none, w)

  -- `client` is `none` for a NULL pointer, and `some none` for a pointer to NULL.
  unfoldable pub mobilesync_client_new :
      Option Device
      → ℕ
      → Option (Option MobilesyncClient)
      → W
      → Outcome (MobilesyncError × Option MobilesyncClient × W)
  mobilesync_client_new (some device) port_number (some none) w =
      let made =
        linked (device_link_service_client_new mux tls (some device) port_number (some none) w) in
      if port_number == 0 then done (MobilesyncError.invalid_arg, none, w) else made
  mobilesync_client_new device port_number (some (some client)) w =
      done (MobilesyncError.invalid_arg, some client, w)
  mobilesync_client_new device port_number client w = done (MobilesyncError.invalid_arg, none, w)
