-- ===== src/Idevice/Ssl.antt =====
-- src/idevice.c: SSL on a connection: the transport callbacks of gnutls, and switching it on and off.
pub mod Reading
pub mod Balance
use libiphone_debian.Idevice.{
  cipher_set_priority, compression_set_priority, credentials_set, get_keys_and_certs, global_init,
  invalid_arg, kx_set_priority, mac_set_priority, protocol_set_priority, session_set_ptr,
  set_retrieve_function, ssl_error, transport_set, IdeviceError, succeeded, SslData, Connection,
  Usbmuxd, Gnutls, Setup, Kind,
}
use libiphone_debian.Common.{
  ◌+◌, ℕ, zero, suc, ◌-◌, Option, none, some, List, [], ◌++◌, length, ltb, leb, ◌==◌, if◌then◌else◌,
}
use libiphone_debian.Common.Outcome.{Outcome, done, fault, running, buffer_overflow}
use libiphone_debian.Idevice.Raw.{internal_connection_send, internal_connection_receive}

-- What internal_ssl_read leaves: an error code as its result, or the bytes whose number is its result.
pub data ReadResult : Type 0 where
  failed : IdeviceError → ReadResult
  read : List ℕ → ReadResult

-- What a variable holds that was 0 before the call.
abbrev pub stored_bytes : Option (List ℕ) → List ℕ
stored_bytes none = []
stored_bytes (some bs) = bs

abbrev pub stored_count : Option ℕ → ℕ
stored_count none = 0
stored_count (some n) = n

module _ {W : Type 0} (mux : Usbmuxd W) where
  -- The do loop: `buf` is what has been copied to the buffer of `n` bytes.
  pub read_round : ℕ → Connection → ℕ → List ℕ → W → Outcome (ReadResult × W)
  read_round zero c n buf w = running
  read_round (suc fuel) c n buf w =
      let (res, stored, w') = internal_connection_receive mux (some c) (n - length buf) w in
      let got = stored_bytes stored in
      let rest = read_round fuel c n (buf ++ got) w' in
      if succeeded res
      then (if ltb n (length buf + length got)
          then fault buffer_overflow
          else if leb n (length buf + length got)
          then done (ReadResult.read (buf ++ got), w')
          else rest)
      else done (ReadResult.failed res, w')

  -- A length is below 2 ^ 31, so that the int `this_len` holds it.
  pub internal_ssl_read : ℕ → Connection → ℕ → W → Outcome (ReadResult × W)
  internal_ssl_read fuel c n w = read_round fuel c n [] w

  pub internal_ssl_write : Connection → List ℕ → W → ℕ × W
  internal_ssl_write c bytes w =
      let (res, stored, w') = internal_connection_send mux (some c) (some bytes) w in
      (stored_count stored, w')

module _ {W : Type 0} (tls : Gnutls W) where
  -- An object is taken back where its handle is set.
  abbrev release_set : Kind → ℕ → W → W
  release_set kind handle w = if handle == 0 then w else tls.release kind handle w

  pub internal_ssl_cleanup : SslData → W → W
  internal_ssl_cleanup d w =
      let w1 = release_set Kind.session d.session w in
      let w2 = release_set Kind.credentials d.certificate w1 in
      let w3 = release_set Kind.crt d.root_cert w2 in
      let w4 = release_set Kind.crt d.host_cert w3 in
      let w5 = release_set Kind.privkey d.root_privkey w4 in
      release_set Kind.privkey d.host_privkey w5

  -- The session and its credentials, with its priorities set.
  pub open_session : W → ℕ × ℕ × W
  open_session w =
      let (certificate, w1) = tls.allocate Kind.credentials (tls.setup Setup.global_init w) in
      let (session, w2) =
        tls.allocate Kind.session (tls.setup (Setup.set_retrieve_function certificate) w1) in
      let w3 = tls.setup (Setup.cipher_set_priority session) w2 in
      let w4 = tls.setup (Setup.compression_set_priority session) w3 in
      let w5 = tls.setup (Setup.kx_set_priority session) w4 in
      let w6 = tls.setup (Setup.protocol_set_priority session) w5 in
      let w7 = tls.setup (Setup.mac_set_priority session) w6 in
      let w8 = tls.setup (Setup.credentials_set session certificate) w7 in
      (certificate, session, tls.setup (Setup.session_set_ptr session) w8)

  -- The keys and certificates of the host, with whatever userpref could load.
  pub open_keys : ℕ × ℕ × W → SslData × W
  open_keys (certificate, session, w) =
      let (root_cert, w1) = tls.allocate Kind.crt w in
      let (host_cert, w2) = tls.allocate Kind.crt w1 in
      let (root_privkey, w3) = tls.allocate Kind.privkey w2 in
      let (host_privkey, w4) = tls.allocate Kind.privkey w3 in
      let w5 =
        tls.setup (Setup.get_keys_and_certs root_privkey root_cert host_privkey host_cert) w4 in
      (
        record {
          certificate = certificate;
          session = session;
          root_privkey = root_privkey;
          root_cert = root_cert;
          host_privkey = host_privkey;
          host_cert = host_cert;
        },
        tls.setup (Setup.transport_set session) w5,
      )

  pub idevice_connection_enable_ssl : Option Connection → W → IdeviceError × Option Connection × W
  idevice_connection_enable_ssl none w = (IdeviceError.invalid_arg, none, w)
  idevice_connection_enable_ssl (some c) w = elim c.ssl_data [
    | some d ↦ (IdeviceError.invalid_arg, some c, w)
    | none ↦
        let (d, w1) = open_keys (open_session w) in
        let (ok, w2) = tls.handshake d.session w1 in
        if ok
        then (IdeviceError.success, some (record c { ssl_data = some d }), w2)
        else (IdeviceError.ssl_error, some c, internal_ssl_cleanup d w2)
  ]

  unfoldable pub idevice_connection_disable_ssl :
      Option Connection → W → IdeviceError × Option Connection × W
  idevice_connection_disable_ssl none w = (IdeviceError.invalid_arg, none, w)
  idevice_connection_disable_ssl (some c) w = elim c.ssl_data [
    | none ↦ (IdeviceError.success, some c, w)
    | some d ↦
        let w' = if d.session == 0 then w else tls.setup (Setup.bye d.session) w in
        (IdeviceError.success, some (record c { ssl_data = none }), internal_ssl_cleanup d w')
  ]
