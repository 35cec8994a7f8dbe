-- ===== src/Channel.antt =====
-- The byte stream that the services talk over: what `idevice_connection_send` and
-- `idevice_connection_receive` (src/idevice.c) do on a connection that is open. `W` is the state of
-- the world behind it: the device, usbmuxd and the SSL session. The services ignore the error code
-- that these calls return and read only the count that they store, so the count is all there is here.
pub mod Script
use libiphone_debian.Common.{ℕ, ◌≤◌, ◌≡◌, List, ◌++◌, length}

pub record Channel (W : Type 0) : Type 0 where
  -- How many of the bytes were sent.
  pub send : List ℕ → W → ℕ × W
  -- What was written to the buffer of the given size; its length is the count.
  pub receive : ℕ → W → List ℕ × W
  pub receive_le : (n : ℕ) (w : W) → length (receive n w).0 ≤ n
  -- The same with a timeout, which comes second.
  pub receive_timeout : ℕ → ℕ → W → List ℕ × W
  pub receive_timeout_le : (n timeout : ℕ) (w : W) → length (receive_timeout n timeout w).0 ≤ n

-- A channel that hands every byte over, and a log of what went out.
pub record IsReliable {W : Type 0} (ch : Channel W) (sent : W → List ℕ) : Type 0 where
  pub sends_all : (d : List ℕ) (w : W) → (ch.send d w).0 ≡ length d
  pub send_logs : (d : List ℕ) (w : W) → sent (ch.send d w).1 ≡ sent w ++ d
  pub receive_keeps : (n : ℕ) (w : W) → sent (ch.receive n w).1 ≡ sent w
