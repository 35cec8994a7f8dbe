-- ===== src/PropertyList/Client.antt =====
-- src/property_list_service.c: the life of a client and its SSL.
use libiphone_debian.Common.{none, some, Option, if◌then◌else◌, ℕ, ◌==◌}
use libiphone_debian.Idevice.{succeeded, Connection, Device, Gnutls, IdeviceError, Usbmuxd}
use libiphone_debian.Idevice.Ssl.{idevice_connection_disable_ssl, idevice_connection_enable_ssl}
use libiphone_debian.Idevice.Transfer.{idevice_connect, idevice_disconnect}
use libiphone_debian.PropertyList.{
  PlistClient, PlistServiceError, idevice_to_property_list_service_error,
}

module _ {W : Type 0} (mux : Usbmuxd W) (tls : Gnutls W) where
  abbrev made : IdeviceError × Option Connection × W → PlistServiceError × Option PlistClient × W
  made (e, connection, w) =
      if succeeded e
      then (PlistServiceError.success, some (record { connection = connection }), w)
      else (PlistServiceError.mux_error, none, w)

  -- `client` is `none` for a NULL pointer, and `some none` for a pointer to NULL.
  unfoldable pub property_list_service_client_new :
      Option Device
      → ℕ
      → Option (Option PlistClient)
      → W
      → PlistServiceError × Option PlistClient × W
  property_list_service_client_new (some device) port (some none) w =
      if port == 0
      then (PlistServiceError.invalid_arg, none, w)
      else made (idevice_connect mux (some device) port w)
  property_list_service_client_new device port (some (some client)) w =
      (PlistServiceError.invalid_arg, some client, w)
  property_list_service_client_new device port client w = (PlistServiceError.invalid_arg, none, w)

  unfoldable pub property_list_service_client_free : Option PlistClient → W → PlistServiceError × W
  property_list_service_client_free none w = (PlistServiceError.invalid_arg, w)
  property_list_service_client_free (some client) w =
      let (e, w') = idevice_disconnect mux tls client.connection w in
      (idevice_to_property_list_service_error e, w')

  abbrev switched :
      IdeviceError × Option Connection × W → PlistServiceError × Option PlistClient × W
  switched (e, connection, w) =
      (idevice_to_property_list_service_error e, some (record { connection = connection }), w)

  pub property_list_service_enable_ssl :
      Option PlistClient → W → PlistServiceError × Option PlistClient × W
  property_list_service_enable_ssl none w = (PlistServiceError.invalid_arg, none, w)
  property_list_service_enable_ssl (some client) w = elim client.connection [
    | none ↦ (PlistServiceError.invalid_arg, some client, w)
    | some c ↦ switched (idevice_connection_enable_ssl tls (some c) w)
  ]

  pub property_list_service_disable_ssl :
      Option PlistClient → W → PlistServiceError × Option PlistClient × W
  property_list_service_disable_ssl none w = (PlistServiceError.invalid_arg, none, w)
  property_list_service_disable_ssl (some client) w = elim client.connection [
    | none ↦ (PlistServiceError.invalid_arg, some client, w)
    | some c ↦ switched (idevice_connection_disable_ssl tls (some c) w)
  ]
