-- ===== src/Afc/Read.antt =====
-- src/afc.c: afc_file_read, in rounds of at most 64 KiB.
pub mod Locking
pub mod Rounds
use libiphone_debian.Common.{
  ℕ, zero, suc, ◌+◌, ◌-◌, ◌^◌, not, ◌||◌, Option, none, some, List, [], ◌++◌, length, take, ltb,
  ◌==◌, if◌then◌else◌,
}
use libiphone_debian.Common.Outcome.{Outcome, done, fault, running, buffer_overflow, ◌>>=◌}
use libiphone_debian.Common.Bytes.{le_bytes}
use libiphone_debian.Channel.{Channel}
use libiphone_debian.Afc.Op
use libiphone_debian.Afc.Error
use libiphone_debian.Afc.Packet.{AfcClient}
use libiphone_debian.Afc.Transfer.{Received}
use libiphone_debian.Afc.Session.{afc_lock, afc_unlock, exchange}

abbrev pub max_read : ℕ
max_read = 2 ^ 16

-- What a read leaves: its code, the bytes copied to the caller's buffer, *bytes_read if it is set.
pub record ReadResult (W : Type 0) : Type 0 where
  pub ret : ℕ
  pub copied : List ℕ
  pub bytes_read : Option ℕ
  pub client : Option AfcClient
  pub world : W

-- One round of the read loop: it ends with a code and perhaps a count, or goes on.
pub data ReadStep : Type 0 where
  ended : ℕ → Option ℕ → ReadStep
  more : List ℕ → ReadStep

-- `buf` is what has been copied to the caller's `len` bytes before.
pub read_step : ℕ → List ℕ → Received → Outcome ReadStep
read_step len buf r =
    if not (r.ret == 0)
    then done (ended r.ret none)
    else if r.bytes_recv == 0
    then done (ended r.ret (some (length buf)))
    else elim r.dump_here [
      | none ↦ done (more buf)
      | some input ↦
          let n = if ltb len r.bytes_recv then len else r.bytes_recv in
          if ltb len (length buf + n)
          then fault buffer_overflow
          else done (more (buf ++ take n input))
    ]

-- How much the next request asks for.
unfoldable pub next_size : ℕ → ℕ → ℕ
next_size len cur = if ltb (len - cur) max_read then len - cur else max_read

module _ {W : Type 0} (ch : Channel W) where
  -- How the loop goes on behind a round.
  resume :
      ReadStep → List ℕ → AfcClient → W → (List ℕ → Outcome (ReadResult W)) → Outcome (ReadResult W)
  resume (ReadStep.ended ret bytes) buf c w again = done (record {
    ret = ret;
    copied = buf;
    bytes_read = bytes;
    client = some (afc_unlock c);
    world = w;
  })
  resume (ReadStep.more buf') buf c w again = again buf'

  -- The loop of afc_file_read.
  pub read_loop : ℕ → ℕ → ℕ → List ℕ → AfcClient → W → Outcome (ReadResult W)
  unfolding read_step next_size resume
  read_loop zero handle len buf c w = running
  read_loop (suc fuel) handle len buf c w =
      let round : Outcome (ReadResult W) = do
        (r, c', w') ←
            exchange ch Op.read 0 0
              (some (le_bytes 8 handle ++ le_bytes 8 (next_size len (length buf)))) 16
              Error.not_enough_data c w
        step ← read_step len buf r
        resume step buf c' w' (λ buf'. read_loop fuel handle len buf' c' w')
      in if ltb (length buf) len
        then round
        else done (record {
          ret = Error.success;
          copied = buf;
          bytes_read = some (length buf);
          client = some (afc_unlock c);
          world = w;
        })

  pub afc_file_read : ℕ → Option AfcClient → ℕ → ℕ → W → Outcome (ReadResult W)
  unfolding afc_lock
  afc_file_read fuel none handle len w =
      done (record {
        ret = Error.invalid_arg;
        copied = [];
        bytes_read = none;
        client = none;
        world = w;
      })
  afc_file_read fuel (some c) handle len w =
      let body : Outcome (ReadResult W) = afc_lock c >>= λ c'. read_loop fuel handle len [] c' w in
      if not c.connection || handle == 0
      then done (record {
        ret = Error.invalid_arg;
        copied = [];
        bytes_read = none;
        client = some c;
        world = w;
      })
      else body
