-- ===== src/Afc/Files.antt =====
-- src/afc.c: the requests on open files. A handle is the number whose bytes lie in memory; the
-- host is taken to be little-endian, so that copying a uint64_t byte by byte is `le_bytes 8`.
pub mod Locking
use libiphone_debian.Common.{
  ℕ, ◌+◌, ◌%◌, ◌^◌, not, ◌&&◌, Option, none, some, List, ◌++◌, length, take, ltb, ◌==◌,
  if◌then◌else◌,
}
use libiphone_debian.Common.Outcome.{Outcome, done, fault, over_read, null_deref, ◌>>=◌}
use libiphone_debian.Common.Bytes.{le_bytes, le_value}
use libiphone_debian.Common.CString.{CString, terminated}
use libiphone_debian.Channel.{Channel}
use libiphone_debian.Afc.Op
use libiphone_debian.Afc.Error
use libiphone_debian.Afc.Packet.{AfcClient}
use libiphone_debian.Afc.Session.{request}

-- memcpy of a uint64_t out of a reply
pub word_of : List ℕ → Outcome ℕ
word_of buf = if ltb (length buf) 8 then fault over_read else done (le_value (take 8 buf))

module _ {W : Type 0} (ch : Channel W) where
  -- The handle is 0 unless a reply gave it. `handle` itself is taken to be set.
  pub afc_file_open :
      Option AfcClient → Option CString → ℕ → W → Outcome (ℕ × ℕ × Option AfcClient × W)
  unfolding word_of
  afc_file_open client none file_mode w = fault null_deref
  afc_file_open none (some filename) file_mode w = done (Error.invalid_arg, 0, none, w)
  afc_file_open (some c) (some filename) file_mode w =
      let buf = le_bytes 8 file_mode ++ terminated filename in
      let reply : Outcome (ℕ × ℕ × Option AfcClient × W) = do
        (r, c', w') ←
            request ch Op.file_open (some buf) ((8 + length filename + 1) % 2 ^ 32)
              Error.not_enough_data c w
        elim r.dump_here [
          | none ↦ done (r.ret, 0, some c', w')
          | some bs ↦
              let handle = word_of bs in
              if r.ret == 0 && ltb 0 r.bytes_recv
              then (handle >>= λ v. done (r.ret, v, some c', w'))
              else done (r.ret, 0, some c', w')
        ]
      in if not c.connection then done (Error.invalid_arg, 0, some c, w) else reply

  -- The requests whose reply is a code alone.
  abbrev file_command :
      ℕ → List ℕ → ℕ → Option AfcClient → ℕ → W → Outcome (ℕ × Option AfcClient × W)
  file_command operation buf on_send none handle w = done (Error.invalid_arg, none, w)
  file_command operation buf on_send (some c) handle w =
      let reply : Outcome (ℕ × Option AfcClient × W) = do
        (r, c', w') ← request ch operation (some buf) (length buf) on_send c w
        done (r.ret, some c', w')
      in if handle == 0 then done (Error.invalid_arg, some c, w) else reply

  pub afc_file_close : Option AfcClient → ℕ → W → Outcome (ℕ × Option AfcClient × W)
  afc_file_close client handle w =
      file_command Op.file_close (le_bytes 8 handle) Error.unknown_error client handle w

  pub afc_file_lock : Option AfcClient → ℕ → ℕ → W → Outcome (ℕ × Option AfcClient × W)
  afc_file_lock client handle operation w =
      file_command Op.file_lock (le_bytes 8 handle ++ le_bytes 8 operation) Error.unknown_error
        client handle w

  -- `offset` and `whence` are the uint64_t patterns of the signed arguments.
  pub afc_file_seek : Option AfcClient → ℕ → ℕ → ℕ → W → Outcome (ℕ × Option AfcClient × W)
  afc_file_seek client handle offset whence w =
      file_command Op.file_seek (le_bytes 8 handle ++ (le_bytes 8 whence ++ le_bytes 8 offset))
        Error.not_enough_data client handle w

  pub afc_file_truncate : Option AfcClient → ℕ → ℕ → W → Outcome (ℕ × Option AfcClient × W)
  afc_file_truncate client handle newsize w =
      file_command Op.file_set_size (le_bytes 8 handle ++ le_bytes 8 newsize) Error.not_enough_data
        client handle w

  -- The position is `none` where *position is left as it was.
  pub afc_file_tell : Option AfcClient → ℕ → W → Outcome (ℕ × Option ℕ × Option AfcClient × W)
  unfolding word_of
  afc_file_tell none handle w = done (Error.invalid_arg, none, none, w)
  afc_file_tell (some c) handle w =
      let reply : Outcome (ℕ × Option ℕ × Option AfcClient × W) = do
        (r, c', w') ← request ch Op.file_tell (some (le_bytes 8 handle)) 8 Error.not_enough_data c w
        elim r.dump_here [
          | none ↦ done (r.ret, none, some c', w')
          | some bs ↦
              let position = word_of bs in
              if ltb 0 r.bytes_recv
              then (position >>= λ v. done (r.ret, some v, some c', w'))
              else done (r.ret, none, some c', w')
        ]
      in if handle == 0 then done (Error.invalid_arg, none, some c, w) else reply
