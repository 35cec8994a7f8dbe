-- ===== src/Afc/Session/Soundness.antt =====
-- src/afc.c: the state of a client between requests and inside of one.
use libiphone_debian.Common.Outcome.{Unblocked-Returns, Unblocked-bind, Unblocked}
use libiphone_debian.Common.{
  none, some, inr, ◌==◌, Bool-cases, inl, ℕ, ◌≡◌, refl, true, false, Option, List, arith,
}
use libiphone_debian.Afc.Transfer.Framing.{dispatch_keeps}
use libiphone_debian.Afc.Transfer.{Dispatched, afc_receive_data, afc_dispatch_packet}
use libiphone_debian.Afc.Transfer.Receiving.{receive_data_ends}
use libiphone_debian.Afc.Session.{
  afc_unlock, afc_lock, afc_client_new_from_connection, exchange, request,
}
use libiphone_debian.Common.Bytes.{IsU64}
use libiphone_debian.Afc.Packet.{afc_magic, AfcClient}
use libiphone_debian.Afc.Error
use libiphone_debian.Channel.{Channel}

-- What holds of a client throughout: it has its connection, the magic of its packet is in place and
-- the count of packets fits a uint64_t.
pub record IsSound (c : AfcClient) : Type 0 where
  pub connected : c.connection ≡ true
  pub magic : c.afc_packet.magic ≡ afc_magic
  pub numbered : IsU64 c.afc_packet.packet_num

-- Between requests the mutex is free too.
pub record IsReady (c : AfcClient) : Type 0 where
  pub sound : IsSound c
  pub unlocked : c.locked ≡ false

-- The same of a pointer to a client, which may be NULL.
abbrev pub RefersReady : Option AfcClient → Type 0
RefersReady none = Unit
RefersReady (some c) = IsReady c

-- A new client is ready, and there is one exactly when there is a connection.
pub new_from_connection-IsReady :
    (c : AfcClient) → afc_client_new_from_connection true ≡ (Error.success, some c) → IsReady c
unfolding afc_client_new_from_connection
new_from_connection-IsReady c h = ground arith

-- Locking a ready client does not block; unlocking a sound one makes it ready.
pub lock-Unblocked : (c : AfcClient) → IsReady c → Unblocked IsSound (afc_lock c)
unfolding afc_lock
lock-Unblocked c h =
    rw (h.unlocked, afc_lock)
      (record { connected = h.sound.connected; magic = h.sound.magic; numbered = h.sound.numbered })

pub unlock-IsReady : (c : AfcClient) → IsSound c → IsReady (afc_unlock c)
unfolding afc_unlock
unlock-IsReady c h = record {
  sound = record { connected = h.connected; magic = h.magic; numbered = h.numbered };
  unlocked = refl;
}

module _ {W : Type 0} (ch : Channel W) where
  pub dispatch-IsSound :
      (buf : Option (List ℕ)) (n : ℕ) (c : AfcClient) (w : W)
      → IsSound c
      → IsSound (afc_dispatch_packet ch buf n c w).client
        × ((afc_dispatch_packet ch buf n c w).client.locked ≡ c.locked)
  dispatch-IsSound buf n c w h = ground (arith, dispatch_keeps ch buf n c w)

  -- afc_receive_data takes no lock.
  pub receive_data-Unblocked :
      (c : AfcClient) (w : W) → Unblocked (λ x. Unit {0}) (afc_receive_data ch c w)
  receive_data-Unblocked c w = elim (receive_data_ends ch c w) [
    | inl r ↦ Unblocked-Returns _ _ (afc_receive_data ch c w) r (λ a h. tt)
    | inr (e, longer) ↦ rw e tt
  ]

  pub exchange-Unblocked :
      (operation entire this : ℕ) (buf : Option (List ℕ)) (n on_send : ℕ) (c : AfcClient) (w : W)
      → IsSound c
      → Unblocked
          (λ x. IsSound x.1 × (x.1.locked ≡ c.locked))
          (exchange ch operation entire this buf n on_send c w)
  unfolding exchange
  exchange-Unblocked operation entire this buf n on_send c w h = elim (Bool-cases (d.ret == 0)) [
    | inl e ↦
        rw (e, exchange)
          (Unblocked-bind (λ x. Unit {0}) (λ x. IsSound x.1 × (x.1.locked ≡ c.locked))
            (afc_receive_data ch d.client d.world) _ (receive_data-Unblocked d.client d.world)
            (λ a _. kept))
    | inr e ↦ rw (e, exchange) kept
  ]
    where
      d : Dispatched W
      d =
          afc_dispatch_packet ch buf n
            (record c {
              afc_packet = record c.afc_packet {
                operation = operation;
                entire_length = entire;
                this_length = this;
              };
            })
            w

      kept : IsSound d.client × (d.client.locked ≡ c.locked)
      kept =
          dispatch-IsSound buf n _ w
            (record { connected = h.connected; magic = h.magic; numbered = h.numbered })

  -- A request on a ready client does not block, and leaves the client ready on every path.
  pub request-Unblocked :
      (operation : ℕ) (buf : Option (List ℕ)) (n on_send : ℕ) (c : AfcClient) (w : W)
      → IsReady c
      → Unblocked (λ x. IsReady x.1) (request ch operation buf n on_send c w)
  unfolding request
  request-Unblocked operation buf n on_send c w h =
      rw (h.unlocked, request)
        (Unblocked-bind (λ x. IsSound x.1 × (x.1.locked ≡ true)) (λ x. IsReady x.1)
          (exchange ch operation 0 0 buf n on_send (record c { locked = true }) w) _
          (exchange-Unblocked operation 0 0 buf n on_send (record c { locked = true }) w
            (record {
              connected = h.sound.connected;
              magic = h.sound.magic;
              numbered = h.sound.numbered;
            }))
          (λ a k. record {
            sound = record {
              connected = k.0.connected;
              magic = k.0.magic;
              numbered = k.0.numbered;
            };
            unlocked = refl;
          }))
