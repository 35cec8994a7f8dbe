-- ===== src/Afc/Session.antt =====
-- src/afc.c: the mutex, the life of a client, and the exchange that every request makes.
pub mod Soundness
use libiphone_debian.Common.{ℕ, Bool, true, false, Option, none, some, List, ◌==◌, if◌then◌else◌}
use libiphone_debian.Common.Outcome.{Outcome, done, fault, deadlock, ◌>>=◌}
use libiphone_debian.Channel.{Channel}
use libiphone_debian.Afc.Error
use libiphone_debian.Afc.Packet.{AfcClient, afc_magic}
use libiphone_debian.Afc.Transfer.{Received, failed, afc_dispatch_packet, afc_receive_data}

unfoldable pub afc_lock : AfcClient → Outcome AfcClient
afc_lock c = if c.locked then fault deadlock else done (record c { locked = true })

unfoldable pub afc_unlock : AfcClient → AfcClient
afc_unlock c = record c { locked = false }

-- `connection` is false for a NULL pointer. Memory is taken to be there.
unfoldable pub afc_client_new_from_connection : Bool → ℕ × Option AfcClient
afc_client_new_from_connection false = (Error.invalid_arg, none)
afc_client_new_from_connection true = (
  Error.success,
  some (record {
    connection = true;
    afc_packet = record {
      magic = afc_magic;
      entire_length = 0;
      this_length = 0;
      packet_num = 0;
      operation = 0;
    };
    file_handle = 0;
    lock = 0;
    locked = false;
    own_connection = false;
  }),
)

module _ {W : Type 0} (ch : Channel W) where
  -- One command and its reply, the mutex held: the fields of the packet are set, the packet goes
  -- out, and the reply is read unless that failed with an error code.
  unfoldable pub exchange :
      (operation entire_length this_length : ℕ)
      → Option (List ℕ)
      → ℕ
      → ℕ
      → AfcClient
      → W
      → Outcome (Received × AfcClient × W)
  exchange operation entire this buf n on_send c w =
      let p = record c.afc_packet {
        operation = operation;
        entire_length = entire;
        this_length = this;
      } in
      let d = afc_dispatch_packet ch buf n (record c { afc_packet = p }) w in
      let reply : Outcome (Received × AfcClient × W) =
        afc_receive_data ch d.client d.world >>= λ x. done (x.0, d.client, x.1) in
      if d.ret == 0 then reply else done (failed on_send d.bytes_sent, d.client, d.world)

  -- The same between lock and unlock, with the lengths left to afc_dispatch_packet.
  pub request :
      (operation : ℕ) → Option (List ℕ) → ℕ → ℕ → AfcClient → W → Outcome (Received × AfcClient × W)
  unfolding exchange afc_lock afc_unlock
  request operation buf n on_send c w = do
    c' ← afc_lock c
    (r, d, w') ← exchange operation 0 0 buf n on_send c' w
    done (r, afc_unlock d, w')
