-- ===== src/Idevice/Ssl/Reading.antt =====
-- src/idevice.c: internal_ssl_read, which has to fill its buffer.
use libiphone_debian.Common.{
  refl, inr, zero, arith, false, inl, suc, ◌-◌, [], length, some, true, List, length-append, ℕ,
  ◌++◌, ◌<◌, ◌≡◌, ◌≤◌,
}
use libiphone_debian.Common.Outcome.{running, Returns}
use libiphone_debian.Idevice.{succeeded, ConnectionType-cases, Connection, ConnectionType, Usbmuxd}
use libiphone_debian.Idevice.Ssl.{internal_ssl_read, ReadResult, read_round, stored_bytes}
use libiphone_debian.Idevice.Raw.{internal_connection_receive}

-- An error code other than success, or a full buffer of `n` bytes.
abbrev pub IsWhole : ℕ → ReadResult → Type 0
IsWhole n (ReadResult.failed e) = succeeded e ≡ false
IsWhole n (ReadResult.read bs) = length bs ≡ n

-- A receive that succeeds brings a byte at least, where one is asked for.
abbrev pub Delivers : {W : Type 0} → Usbmuxd W → Type 0
Delivers {W} mux =
    (socket n : ℕ) (w : W)
    → 0 < n
    → (mux.recv socket n w).0 ≡ true
    → 0 < length (mux.recv socket n w).1

module _ {W : Type 0} (mux : Usbmuxd W) where
  receive_cases :
      (c : Connection) (n : ℕ) (w : W)
      → let r = internal_connection_receive mux (some c) n w in
        (length (stored_bytes r.1) ≤ n)
        × (Delivers mux → 0 < n → succeeded r.0 ≡ true → 0 < length (stored_bytes r.1))
  unfolding internal_connection_receive
  receive_cases c n w = elim (ConnectionType-cases c.type) [
    | inl e ↦ (ground (arith, mux.recv_le c.socket n w), λ d pos ok. ground (arith, d c.socket n w))
    | inr e ↦ ground arith
  ]

  round_ends :
      (fuel : ℕ) (c : Connection) (n : ℕ) (buf : List ℕ) (w : W)
      → Delivers mux
      → length buf ≤ n
      → n - length buf < fuel
      → Returns (λ x. IsWhole n x.0) (read_round mux fuel c n buf w)
  unfolding read_round
  round_ends zero c n buf w d h enough = absurd (omega arith)
  round_ends (suc fuel) c n buf w d h enough =
      let r = internal_connection_receive mux (some c) (n - length buf) w in
      let got = stored_bytes r.1 in
      ground (
        arith,
        length-append buf got,
        receive_cases c (n - length buf) w,
        round_ends fuel c n (buf ++ got) r.2 d,
      )

  -- If every receive that succeeds brings a byte at least, internal_ssl_read with more than `n`
  -- rounds of fuel ends, with no write past its buffer: either with the error code of a receive or
  -- with all of the `n` bytes.
  pub internal_ssl_read-IsWhole :
      (fuel : ℕ) (c : Connection) (n : ℕ) (w : W)
      → Delivers mux
      → n < fuel
      → Returns (λ x. IsWhole n x.0) (internal_ssl_read mux fuel c n w)
  unfolding internal_ssl_read
  internal_ssl_read-IsWhole fuel c n w d enough =
      round_ends fuel c n [] w d (omega arith) (omega arith)

  abbrev IsIdle : Type 0
  IsIdle =
      (socket m : ℕ) (w : W) → ((mux.recv socket m w).0 ≡ true) × ((mux.recv socket m w).1 ≡ [])

  round_stalls :
      (fuel : ℕ) (c : Connection) (n : ℕ) (w : W)
      → c.type ≡ ConnectionType.usbmuxd
      → 0 < n
      → IsIdle
      → read_round mux fuel c n [] w ≡ running
  unfolding read_round internal_connection_receive
  round_stalls zero c n w e pos idle = refl
  round_stalls (suc fuel) c n w e pos idle =
      let i = idle c.socket (n - 0) w in
      ground (arith, round_stalls fuel c n (mux.recv c.socket (n - 0) w).2 e pos idle)

  -- The bug: where every receive of usbmuxd succeeds and brings nothing, internal_ssl_read of one
  -- byte or more never ends: no number of rounds is enough.
  pub internal_ssl_read_stalls :
      (fuel : ℕ) (c : Connection) (n : ℕ) (w : W)
      → c.type ≡ ConnectionType.usbmuxd
      → 0 < n
      → IsIdle
      → internal_ssl_read mux fuel c n w ≡ running
  unfolding internal_ssl_read
  internal_ssl_read_stalls fuel c n w e pos idle = round_stalls fuel c n w e pos idle
