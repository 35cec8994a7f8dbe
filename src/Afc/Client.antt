-- ===== src/Afc/Client.antt =====
-- src/afc.c: a client that opens its own connection, and the end of a client. A client stands here
-- with the connection that its pointer refers to.
use libiphone_debian.Common.{
  arith, none, true, not, some, Option, if◌then◌else◌, is_some, ℕ, ◌%◌, ◌&&◌, ◌==◌, ◌^◌, ◌≡◌, ◌≢◌,
}
use libiphone_debian.Afc.Error
use libiphone_debian.Idevice.{
  succeeded, Connection, ConnectionType, Device, Gnutls, IdeviceError, Usbmuxd,
}
use libiphone_debian.Afc.Session.{afc_client_new_from_connection}
use libiphone_debian.Idevice.Transfer.{idevice_connect, idevice_disconnect}
use libiphone_debian.Afc.Packet.{AfcClient}
use libiphone_debian.Idevice.Ssl.{idevice_connection_disable_ssl}

-- A client and what its field `connection` points to, if anything.
abbrev pub Connected : Type 0
Connected = AfcClient × Option Connection

-- The new client, which owns its connection from now on.
abbrev owning : Option AfcClient → Option Connection → Option Connected
owning none connection = none
owning (some c) connection = some (record c { own_connection = true }, connection)

-- A client on a connection of the caller's.
abbrev pub owned_by_caller : Option AfcClient → Connection → Option Connected
owned_by_caller none connection = none
owned_by_caller (some c) connection = some (c, some connection)

module _ {W : Type 0} (mux : Usbmuxd W) (tls : Gnutls W) where
  -- afc_client_new_from_connection over the connection, which is closed where that fails.
  abbrev opened : IdeviceError × Option Connection × W → ℕ × Option Connected × W
  opened (e, connection, w) =
      let (ret, client) = afc_client_new_from_connection (is_some connection) in
      if not (succeeded e)
      then (Error.mux_error, none, w)
      else if not (ret == 0)
      then (ret, none, (idevice_disconnect mux tls connection w).1)
      else (ret, owning client connection, w)

  pub afc_client_new : Option Device → ℕ → W → ℕ × Option Connected × W
  afc_client_new none port w = (Error.invalid_arg, none, w)
  afc_client_new (some device) port w =
      if port == 0
      then (Error.invalid_arg, none, w)
      else opened (idevice_connect mux (some device) port w)

  -- The connection is closed where the client owns it.
  unfoldable pub afc_client_free : Option Connected → W → ℕ × W
  afc_client_free none w = (Error.invalid_arg, w)
  afc_client_free (some (c, connection)) w =
      if c.own_connection && is_some connection
      then (Error.success, (idevice_disconnect mux tls connection w).1)
      else (Error.success, w)

  -- A client on a device that usbmuxd connects to, by a port other than 0, is made with success,
  -- and to free it closes exactly the socket that was opened for it. To free a client on a
  -- connection of the caller's leaves that connection open.
  client_free-client_new :
      (device : Device) (port socket : ℕ) (w w1 : W)
      → device.conn_type ≡ ConnectionType.usbmuxd
      → port ≢ 0
      → mux.connect (device.conn_data % 2 ^ 32) port w ≡ (some socket, w1)
      → let r = afc_client_new (some device) port w in
        (r.0 ≡ Error.success)
        × (afc_client_free r.1 r.2 ≡ (Error.success, mux.disconnect socket w1))
        × ((connection : Connection) (v : W)
            → afc_client_free (owned_by_caller (afc_client_new_from_connection true).1 connection) v
              ≡ (Error.success, v))
  unfolding afc_client_new afc_client_free afc_client_new_from_connection idevice_connect
      idevice_disconnect idevice_connection_disable_ssl
  client_free-client_new device port socket w w1 usb set e = ground (arith, e)
