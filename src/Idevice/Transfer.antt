-- ===== src/Idevice/Transfer.antt =====
-- src/idevice.c: the life of a connection and transfers over it, through SSL where that is on.
pub mod Stream
use libiphone_debian.Common.{
  ℕ, ◌%◌, ◌^◌, ◌&&◌, not, Option, none, some, List, [], length, ltb, ◌==◌, if◌then◌else◌,
}
use libiphone_debian.Idevice.{
  IdeviceError, ConnectionType, SslData, Connection, Device, Usbmuxd, Gnutls,
}
use libiphone_debian.Idevice.Raw.{
  internal_connection_send, internal_connection_receive, internal_connection_receive_timeout,
}
use libiphone_debian.Idevice.Ssl.{idevice_connection_disable_ssl}

module _ {W : Type 0} (mux : Usbmuxd W) where
  abbrev connected : Option ℕ × W → IdeviceError × Option Connection × W
  connected (none, w) = (IdeviceError.unknown_error, none, w)
  connected (some socket, w) = (
    IdeviceError.success,
    some (record { type = ConnectionType.usbmuxd; socket = socket; ssl_data = none }),
    w,
  )

  -- The connection is `none` where *connection is left as it was.
  unfoldable pub idevice_connect : Option Device → ℕ → W → IdeviceError × Option Connection × W
  idevice_connect none port w = (IdeviceError.invalid_arg, none, w)
  idevice_connect (some device) port w = elim device.conn_type [
    | ConnectionType.usbmuxd ↦ connected (mux.connect (device.conn_data % 2 ^ 32) port w)
    | ConnectionType.unknown ↦ (IdeviceError.unknown_error, none, w)
  ]

module _ {W : Type 0} (mux : Usbmuxd W) (tls : Gnutls W) where
  unfoldable pub idevice_disconnect : Option Connection → W → IdeviceError × W
  idevice_disconnect none w = (IdeviceError.invalid_arg, w)
  idevice_disconnect (some c) w =
      let w' = (idevice_connection_disable_ssl tls (some c) w).2 in
      elim c.type [
        | ConnectionType.usbmuxd ↦ (IdeviceError.success, mux.disconnect c.socket w')
        | ConnectionType.unknown ↦ (IdeviceError.unknown_error, w')
      ]

  -- Through SSL the data goes out whole, or the count is 0.
  abbrev sent_ssl : List ℕ → ℕ × W → IdeviceError × Option ℕ × W
  sent_ssl bytes (sent, w) =
      if sent % 2 ^ 32 == length bytes
      then (IdeviceError.success, some (sent % 2 ^ 32), w)
      else (IdeviceError.ssl_error, some 0, w)

  abbrev received_ssl : List ℕ × W → IdeviceError × Option (List ℕ) × W
  received_ssl (got, w) =
      if ltb 0 (length got)
      then (IdeviceError.success, some got, w)
      else (IdeviceError.ssl_error, some [], w)

  -- The length of the data is below 2 ^ 32.
  pub idevice_connection_send :
      Option Connection → Option (List ℕ) → W → IdeviceError × Option ℕ × W
  idevice_connection_send (some c) (some bytes) w = elim c.ssl_data [
    | none ↦ internal_connection_send mux (some c) (some bytes) w
    | some d ↦
        if d.session == 0
        then (IdeviceError.invalid_arg, none, w)
        else sent_ssl bytes (tls.record_send d.session bytes w)
  ]
  idevice_connection_send connection bytes w = (IdeviceError.invalid_arg, none, w)

  pub idevice_connection_receive : Option Connection → ℕ → W → IdeviceError × Option (List ℕ) × W
  idevice_connection_receive none n w = (IdeviceError.invalid_arg, none, w)
  idevice_connection_receive (some c) n w = elim c.ssl_data [
    | none ↦ internal_connection_receive mux (some c) n w
    | some d ↦
        if d.session == 0
        then (IdeviceError.invalid_arg, none, w)
        else received_ssl (tls.record_recv d.session n w)
  ]

  -- With SSL the timeout is not heeded.
  pub idevice_connection_receive_timeout :
      Option Connection → ℕ → ℕ → W → IdeviceError × Option (List ℕ) × W
  idevice_connection_receive_timeout none n timeout w = (IdeviceError.invalid_arg, none, w)
  idevice_connection_receive_timeout (some c) n timeout w = elim c.ssl_data [
    | none ↦ internal_connection_receive_timeout mux (some c) n timeout w
    | some d ↦
        if d.session == 0
        then (IdeviceError.invalid_arg, none, w)
        else received_ssl (tls.record_recv d.session n w)
  ]
