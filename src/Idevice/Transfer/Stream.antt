-- ===== src/Idevice/Transfer/Stream.antt =====
-- src/idevice.c: a connection as the byte stream that the services talk over.
use libiphone_debian.Idevice.Raw.{
  internal_connection_receive_timeout, internal_connection_send, internal_connection_receive,
}
use libiphone_debian.Common.{
  none, inr, arith, inl, length, some, List, Option-cases, ℕ, ◌++◌, ◌≡◌, ◌≤◌,
}
use libiphone_debian.Idevice.{ConnectionType, Connection, ConnectionType-cases, Gnutls, Usbmuxd}
use libiphone_debian.Channel.{IsReliable, Channel}
use libiphone_debian.Idevice.Transfer.{
  idevice_connection_receive, idevice_connection_receive_timeout, idevice_connection_send,
}
use libiphone_debian.Idevice.Ssl.{stored_bytes, stored_count}

module _ {W : Type 0} (mux : Usbmuxd W) (tls : Gnutls W) where
  -- No receive stores more than it was asked for.
  pub receive-le :
      (c : Connection) (n : ℕ) (w : W)
      → length (stored_bytes (idevice_connection_receive mux tls (some c) n w).1) ≤ n
  unfolding idevice_connection_receive internal_connection_receive
  receive-le c n w = elim (Option-cases c.ssl_data) [
    | inl e ↦ ground (arith, ConnectionType-cases c.type, mux.recv_le c.socket n w)
    | inr (d, e) ↦ ground (arith, tls.record_recv_le d.session n w)
  ]

  receive_timeout-le :
      (c : Connection) (n timeout : ℕ) (w : W)
      → length (stored_bytes (idevice_connection_receive_timeout mux tls (some c) n timeout w).1)
        ≤ n
  unfolding idevice_connection_receive_timeout internal_connection_receive_timeout
  receive_timeout-le c n timeout w = elim (Option-cases c.ssl_data) [
    | inl e ↦ ground (arith, ConnectionType-cases c.type, mux.recv_timeout_le c.socket n timeout w)
    | inr (d, e) ↦ ground (arith, tls.record_recv_le d.session n w)
  ]

  -- What the services see: the counts and the bytes, the error codes dropped.
  pub connection_channel : Connection → Channel W
  connection_channel c = record {
    send = λ bytes w.
        let (res, n, w') = idevice_connection_send mux tls (some c) (some bytes) w in
        (stored_count n, w');
    receive = λ n w.
        let (res, bs, w') = idevice_connection_receive mux tls (some c) n w in
        (stored_bytes bs, w');
    receive_le = λ n w. receive-le c n w;
    receive_timeout = λ n timeout w.
        let (res, bs, w') = idevice_connection_receive_timeout mux tls (some c) n timeout w in
        (stored_bytes bs, w');
    receive_timeout_le = λ n timeout w. receive_timeout-le c n timeout w;
  }

-- usbmuxd hands every byte over, and its log of what went out is kept by a receive.
pub record IsLossless {W : Type 0} (mux : Usbmuxd W) (sent : W → List ℕ) : Type 0 where
  pub sends_all : (s : ℕ) (d : List ℕ) (w : W) → (mux.send s d w).1 ≡ length d
  pub send_logs : (s : ℕ) (d : List ℕ) (w : W) → sent (mux.send s d w).2 ≡ sent w ++ d
  pub recv_keeps : (s n : ℕ) (w : W) → sent (mux.recv s n w).2 ≡ sent w

-- Over a usbmuxd that hands every byte over and logs it, and whose receives leave that log alone,
-- an open connection with no SSL is a channel that hands every byte over, with the same log, which
-- is what the theorems on the services ask of theirs.
connection_channel-IsReliable :
    {W : Type 0} (mux : Usbmuxd W) (tls : Gnutls W) (sent : W → List ℕ) (c : Connection)
    → IsLossless mux sent
    → c.type ≡ ConnectionType.usbmuxd
    → c.ssl_data ≡ none
    → IsReliable (connection_channel mux tls c) sent
unfolding idevice_connection_send idevice_connection_receive internal_connection_send
    internal_connection_receive connection_channel
connection_channel-IsReliable mux tls sent c lossless e plain = record {
  sends_all = λ d w. ground (arith, lossless.sends_all c.socket d w);
  send_logs = λ d w. ground (arith, lossless.send_logs c.socket d w);
  receive_keeps = λ n w. ground (arith, lossless.recv_keeps c.socket n w);
}
