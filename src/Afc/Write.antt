-- ===== src/Afc/Write.antt =====
-- src/afc.c: afc_file_write, in segments of 32 KiB and a rest.
pub mod Locking
pub mod Frames
pub mod Segments
use libiphone_debian.Common.{
  ℕ, zero, suc, ◌+◌, ◌-◌, ◌/◌, ◌%◌, ◌^◌, Bool, not, ◌||◌, Option, none, some, List, ◌++◌, length,
  take, drop, ltb, ◌==◌, if◌then◌else◌,
}
use libiphone_debian.Common.Outcome.{Outcome, done, fault, over_read, ◌>>=◌}
use libiphone_debian.Common.Bytes.{le_bytes}
use libiphone_debian.Channel.{Channel}
use libiphone_debian.Afc.Op
use libiphone_debian.Afc.Error
use libiphone_debian.Afc.Packet.{AfcClient, header_size}
use libiphone_debian.Afc.Transfer.{Dispatched, afc_dispatch_packet, afc_receive_data}
use libiphone_debian.Afc.Session.{afc_lock, afc_unlock}

abbrev pub max_write : ℕ
max_write = 2 ^ 15

-- What a write leaves: its code and *bytes_written, if it is set.
pub record WriteResult (W : Type 0) : Type 0 where
  pub ret : ℕ
  pub bytes_written : Option ℕ
  pub client : Option AfcClient
  pub world : W

-- One segment of a write: it ends the call with a code, or the count goes up.
pub data WriteStep (W : Type 0) : Type 0 where
  ended : ℕ → AfcClient → W → WriteStep W
  more : ℕ → AfcClient → W → WriteStep W

module _ {W : Type 0} (ch : Channel W) where
  -- The packet of a write: the handle as parameters, and `n` bytes behind them.
  unfoldable pub dispatch_write : ℕ → List ℕ → ℕ → AfcClient → W → Dispatched W
  dispatch_write handle chunk n c w =
      let p = record c.afc_packet {
        operation = Op.write;
        entire_length = header_size + 8 + n;
        this_length = header_size + 8;
      } in
      afc_dispatch_packet ch (some (le_bytes 8 handle ++ chunk)) ((n + 8) % 2 ^ 32)
        (record c { afc_packet = p }) w

  -- One segment of `max_write` bytes, taken from the caller's bytes at `cur`.
  pub write_segment : ℕ → List ℕ → ℕ → AfcClient → W → Outcome (WriteStep W)
  unfolding dispatch_write
  write_segment handle bytes cur c w =
      let d = dispatch_write handle (take max_write (drop cur bytes)) max_write c w in
      let reply : Outcome (WriteStep W) = do
        (r, w') ← afc_receive_data ch d.client d.world
        if not (r.ret == 0)
            then done (WriteStep.ended r.ret d.client w')
            else done (WriteStep.more ((cur + d.bytes_sent) % 2 ^ 32) d.client w')
      in if ltb (length bytes) (cur + max_write)
        then fault over_read
        else if not (d.ret == 0)
        then done (WriteStep.ended Error.not_enough_data d.client d.world)
        else reply

  -- What is left behind the last full segment.
  pub write_rest : ℕ → List ℕ → ℕ → AfcClient → W → Outcome (WriteResult W)
  unfolding dispatch_write
  write_rest handle bytes cur c w =
      let n = (length bytes + 2 ^ 32 - cur) % 2 ^ 32 in
      let d = dispatch_write handle (take n (drop cur bytes)) n c w in
      let written = (cur + d.bytes_sent) % 2 ^ 32 in
      let reply : Outcome (WriteResult W) = do
        (r, w') ← afc_receive_data ch d.client d.world
        done (record {
          ret = r.ret;
          bytes_written = some written;
          client = some (afc_unlock d.client);
          world = w';
        })
      in if cur == length bytes
        then done (record {
          ret = Error.success;
          bytes_written = some cur;
          client = some (afc_unlock c);
          world = w;
        })
        else if ltb (length bytes) (cur + n)
        then fault over_read
        else if not (d.ret == 0)
        then done (record {
          ret = Error.success;
          bytes_written = some written;
          client = some (afc_unlock d.client);
          world = d.world;
        })
        else reply

  -- How the call goes on behind a segment.
  resume_write :
      WriteStep W → (ℕ → AfcClient → W → Outcome (WriteResult W)) → Outcome (WriteResult W)
  resume_write (WriteStep.ended ret c w) again =
      done (record { ret = ret; bytes_written = none; client = some (afc_unlock c); world = w })
  resume_write (WriteStep.more cur c w) again = again cur c w

  pub write_segments : ℕ → ℕ → List ℕ → ℕ → AfcClient → W → Outcome (WriteResult W)
  unfolding write_segment write_rest resume_write
  write_segments zero handle bytes cur c w = write_rest handle bytes cur c w
  write_segments (suc segments) handle bytes cur c w = do
    step ← write_segment handle bytes cur c w
    resume_write step (write_segments segments handle bytes)

  -- `bytes` is the caller's data; its length is the length argument, below 2 ^ 32.
  -- `written` says whether bytes_written is set.
  pub afc_file_write : Option AfcClient → ℕ → List ℕ → Bool → W → Outcome (WriteResult W)
  unfolding afc_lock
  afc_file_write none handle bytes written w =
      done (record { ret = Error.invalid_arg; bytes_written = none; client = none; world = w })
  afc_file_write (some c) handle bytes written w =
      let body : Outcome (WriteResult W) =
        afc_lock c >>= λ c'. write_segments (length bytes / max_write) handle bytes 0 c' w in
      if not c.connection || not written || handle == 0
      then done
          (record { ret = Error.invalid_arg; bytes_written = none; client = some c; world = w })
      else body
