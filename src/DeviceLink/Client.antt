-- ===== src/DeviceLink/Client.antt =====
-- src/device_link_service.c: the life of a client, and the property list service that it talks through.
use libiphone_debian.Common.{
  arith, none, some, List, Option, if◌then◌else◌, ℕ, ◌%◌, ◌==◌, ◌^◌, ◌≡◌, ◌≢◌,
}
use libiphone_debian.Idevice.{Connection, ConnectionType, Device, Gnutls, Usbmuxd}
use libiphone_debian.DeviceLink.{DeviceLinkClient, DeviceLinkError, PlistPort, went_well}
use libiphone_debian.PropertyList.Client.{
  property_list_service_client_free, property_list_service_client_new,
}
use libiphone_debian.PropertyList.{
  Libplist, PlistClient, PlistServiceError, idevice_to_property_list_service_error,
}
use libiphone_debian.Idevice.Transfer.{idevice_connect, idevice_disconnect}
use libiphone_debian.PropertyList.Receive.{property_list_service_receive_plist}
use libiphone_debian.Channel.{Channel}
use libiphone_debian.PropertyList.Send.{property_list_service_send_binary_plist}
use libiphone_debian.Idevice.Ssl.{idevice_connection_disable_ssl}

-- The property list service as the port of a device link client: its own functions.
pub property_list_port :
    {P W : Type 0} → Libplist P → (Connection → Channel W) → (ℕ → List ℕ) → PlistPort P W
property_list_port lib ch fresh = record {
  send = λ client plist w. property_list_service_send_binary_plist lib ch client plist w;
  receive = λ client plist w. property_list_service_receive_plist lib ch fresh client plist w;
}

module _ {W : Type 0} (mux : Usbmuxd W) (tls : Gnutls W) where
  abbrev with_parent :
      PlistServiceError × Option PlistClient × W → DeviceLinkError × Option DeviceLinkClient × W
  with_parent (e, parent, w) =
      if went_well e
      then (DeviceLinkError.success, some (record { parent = parent }), w)
      else (DeviceLinkError.mux_error, none, w)

  -- `client` is `none` for a NULL pointer, and `some none` for a pointer to NULL.
  pub device_link_service_client_new :
      Option Device
      → ℕ
      → Option (Option DeviceLinkClient)
      → W
      → DeviceLinkError × Option DeviceLinkClient × W
  device_link_service_client_new (some device) port (some none) w =
      if port == 0
      then (DeviceLinkError.invalid_arg, none, w)
      else with_parent (property_list_service_client_new mux tls (some device) port (some none) w)
  device_link_service_client_new device port (some (some client)) w =
      (DeviceLinkError.invalid_arg, some client, w)
  device_link_service_client_new device port client w = (DeviceLinkError.invalid_arg, none, w)

  unfoldable pub device_link_service_client_free : Option DeviceLinkClient → W → DeviceLinkError × W
  device_link_service_client_free none w = (DeviceLinkError.invalid_arg, w)
  device_link_service_client_free (some client) w =
      let (e, w') = property_list_service_client_free mux tls client.parent w in
      (if went_well e then DeviceLinkError.success else DeviceLinkError.unknown_error, w')

  -- On a device that usbmuxd connects to, by a port other than 0, a new client is made with
  -- success, and to free it closes, through the property list client below it, exactly the socket
  -- that was opened for it.
  link_client_free-link_client_new :
      (device : Device) (port socket : ℕ) (w w1 : W)
      → device.conn_type ≡ ConnectionType.usbmuxd
      → port ≢ 0
      → mux.connect (device.conn_data % 2 ^ 32) port w ≡ (some socket, w1)
      → let r = device_link_service_client_new (some device) port (some none) w in
        (r.0 ≡ DeviceLinkError.success)
        × (device_link_service_client_free r.1 r.2
            ≡ (DeviceLinkError.success, mux.disconnect socket w1))
  unfolding device_link_service_client_new device_link_service_client_free
      property_list_service_client_new property_list_service_client_free
      idevice_to_property_list_service_error idevice_connect idevice_disconnect
      idevice_connection_disable_ssl
  link_client_free-link_client_new device port socket w w1 usb set e = ground (arith, e)
