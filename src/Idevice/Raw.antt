-- ===== src/Idevice/Raw.antt =====
-- src/idevice.c: transfers over usbmuxd, with no SSL. A count of `none` is one that is not stored.
use libiphone_debian.Common.{Bool, ℕ, Option, none, some, List, if◌then◌else◌}
use libiphone_debian.Idevice.{IdeviceError, ConnectionType, Connection, Usbmuxd}

module _ {W : Type 0} (mux : Usbmuxd W) where
  abbrev sent_raw : Bool × ℕ × W → IdeviceError × Option ℕ × W
  sent_raw (ok, n, w) = (if ok then IdeviceError.success else IdeviceError.unknown_error, some n, w)

  abbrev received_raw : Bool × List ℕ × W → IdeviceError × Option (List ℕ) × W
  received_raw (ok, bs, w) =
      (if ok then IdeviceError.success else IdeviceError.unknown_error, some bs, w)

  -- `data` is `none` for a NULL pointer.
  unfoldable pub internal_connection_send :
      Option Connection → Option (List ℕ) → W → IdeviceError × Option ℕ × W
  internal_connection_send (some c) (some bytes) w = elim c.type [
    | ConnectionType.usbmuxd ↦ sent_raw (mux.send c.socket bytes w)
    | ConnectionType.unknown ↦ (IdeviceError.unknown_error, none, w)
  ]
  internal_connection_send connection bytes w = (IdeviceError.invalid_arg, none, w)

  unfoldable pub internal_connection_receive :
      Option Connection → ℕ → W → IdeviceError × Option (List ℕ) × W
  internal_connection_receive none n w = (IdeviceError.invalid_arg, none, w)
  internal_connection_receive (some c) n w = elim c.type [
    | ConnectionType.usbmuxd ↦ received_raw (mux.recv c.socket n w)
    | ConnectionType.unknown ↦ (IdeviceError.unknown_error, none, w)
  ]

  unfoldable pub internal_connection_receive_timeout :
      Option Connection → ℕ → ℕ → W → IdeviceError × Option (List ℕ) × W
  internal_connection_receive_timeout none n timeout w = (IdeviceError.invalid_arg, none, w)
  internal_connection_receive_timeout (some c) n timeout w = elim c.type [
    | ConnectionType.usbmuxd ↦ received_raw (mux.recv_timeout c.socket n timeout w)
    | ConnectionType.unknown ↦ (IdeviceError.unknown_error, none, w)
  ]
