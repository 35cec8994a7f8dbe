-- ===== src/Afc/Read/Rounds.antt =====
-- src/afc.c: afc_file_read and the replies of the device.
use libiphone_debian.Common.{
  false, true, [], ap, length-append, ◌∙◌, ◌≢◌, lt→ltb, take_all, take, zero, suc, ◌⊎◌, ◌++◌, some,
  arith, min, ◌+◌, ◌≡◌, length, ◌-◌, ◌<◌, ◌≤◌, List, ℕ,
}
use libiphone_debian.Afc.Read.{afc_file_read, resume, ReadStep, next_size, read_loop, read_step}
use libiphone_debian.Afc.Session.Soundness.{IsReady}
use libiphone_debian.Common.Outcome.{◌>>=◌, buffer_overflow, fault, done, Outcome}
use libiphone_debian.Common.Bytes.{le_bytes}
use libiphone_debian.Afc.Session.{afc_unlock, exchange}
use libiphone_debian.Afc.Transfer.{failed, received, Received}
use libiphone_debian.Afc.Packet.{AfcClient}
use libiphone_debian.Channel.{Channel}
use libiphone_debian.Afc.Op
use libiphone_debian.Afc.Error

-- Where a piece of data comes in, the copy leaves the caller's buffer exactly when the piece, cut to the
-- length of the whole read, is longer than the room that is left.
pub read_step_cases :
    (len : ℕ) (buf piece : List ℕ)
    → 0 < length piece
    → let n = min len (length piece) in
      ((len < length buf + n) × (read_step len buf (received piece) ≡ fault buffer_overflow))
      ⊎ ((length buf + n ≤ len)
          × (read_step len buf (received piece) ≡ done (ReadStep.more (buf ++ take n piece))))
unfolding read_step
read_step_cases len buf piece h = ground arith

module _ {W : Type 0} (ch : Channel W) (handle len : ℕ) where
  -- The exchange of one round, where `buf` has been read.
  abbrev pub asked : List ℕ → AfcClient → W → Outcome (Received × AfcClient × W)
  asked buf c w =
      exchange ch Op.read 0 0 (some (le_bytes 8 handle ++ le_bytes 8 (next_size len (length buf))))
        16 Error.not_enough_data c w

  -- The device answers each request with data, at most as much as was asked for, until the read is
  -- complete or an empty packet ends it; `buf` and `out` are what has been read before and after.
  pub data Rounds : List ℕ → AfcClient → W → List ℕ → AfcClient → W → Type 0 where
    complete : (buf : List ℕ) (c : AfcClient) (w : W) → len ≤ length buf → Rounds buf c w buf c w
    at_end :
        (buf : List ℕ) (c c' : AfcClient) (w w' : W)
        → length buf < len
        → asked buf c w ≡ done (failed Error.success 0, c', w')
        → Rounds buf c w buf c' w'
    piece :
        {out : List ℕ} {c' : AfcClient} {w' : W} (buf bs : List ℕ) (c c1 : AfcClient) (w w1 : W)
        → length buf < len
        → asked buf c w ≡ done (received bs, c1, w1)
        → 0 < length bs
        → length bs ≤ next_size len (length buf)
        → Rounds (buf ++ bs) c1 w1 out c' w'
        → Rounds buf c w out c' w'

  next_size-le : (cur : ℕ) → next_size len cur ≤ len - cur
  unfolding next_size
  next_size-le cur = ground arith

  -- One round of the loop, on each kind of reply.
  read_loop_complete :
      (fuel : ℕ) (buf : List ℕ) (c : AfcClient) (w : W)
      → len ≤ length buf
      → read_loop ch (suc fuel) handle len buf c w
        ≡ done (record {
          ret = Error.success;
          copied = buf;
          bytes_read = some (length buf);
          client = some (afc_unlock c);
          world = w;
        })
  unfolding read_loop
  read_loop_complete fuel buf c w h = ground arith

  read_loop-round :
      (fuel : ℕ) (buf : List ℕ) (c c1 : AfcClient) (w w1 : W) (r : Received)
      → length buf < len
      → asked buf c w ≡ done (r, c1, w1)
      → read_loop ch (suc fuel) handle len buf c w ≡ (
          read_step len buf r >>= λ step.
          resume ch step buf c1 w1 (λ buf'. read_loop ch fuel handle len buf' c1 w1))
  unfolding read_loop
  read_loop-round fuel buf c c1 w w1 r h e = rw (lt→ltb _ _ h, e)

  read_step-overflow :
      (buf bs : List ℕ)
      → length buf < len
      → len < length buf + min len (length bs)
      → read_step len buf (received bs) ≡ fault buffer_overflow
  unfolding read_step
  read_step-overflow buf bs h over = ground arith

  read_step-piece :
      (buf bs : List ℕ)
      → length buf < len
      → 0 < length bs
      → length bs ≤ next_size len (length buf)
      → read_step len buf (received bs) ≡ done (ReadStep.more (buf ++ bs))
  unfolding read_step
  read_step-piece buf bs h some_bytes small =
      ground (arith, next_size-le (length buf), take_all (length bs) bs)

  read_loop-end :
      (fuel : ℕ) (buf : List ℕ) (c c' : AfcClient) (w w' : W)
      → length buf < len
      → asked buf c w ≡ done (failed Error.success 0, c', w')
      → read_loop ch (suc fuel) handle len buf c w
        ≡ done (record {
          ret = Error.success;
          copied = buf;
          bytes_read = some (length buf);
          client = some (afc_unlock c');
          world = w';
        })
  unfolding read_step resume
  read_loop-end fuel buf c c' w w' h e = read_loop-round fuel buf c c' w w' _ h e

  read_loop-piece :
      (fuel : ℕ) (buf bs : List ℕ) (c c1 : AfcClient) (w w1 : W)
      → length buf < len
      → asked buf c w ≡ done (received bs, c1, w1)
      → 0 < length bs
      → length bs ≤ next_size len (length buf)
      → read_loop ch (suc fuel) handle len buf c w ≡ read_loop ch fuel handle len (buf ++ bs) c1 w1
  unfolding resume
  read_loop-piece fuel buf bs c c1 w w1 h e some_bytes small =
      read_loop-round fuel buf c c1 w w1 _ h e
      ∙ ap (λ o. o >>= λ step. resume ch step buf c1 w1 (λ b. read_loop ch fuel handle len b c1 w1))
          (read_step-piece buf bs h some_bytes small)

  read_loop-Rounds :
      (fuel : ℕ) {out : List ℕ} {c' : AfcClient} {w' : W} {buf : List ℕ} {c : AfcClient} {w : W}
      → Rounds buf c w out c' w'
      → length buf ≤ len
      → len < length buf + fuel
      → (read_loop ch fuel handle len buf c w
          ≡ done (record {
            ret = Error.success;
            copied = out;
            bytes_read = some (length out);
            client = some (afc_unlock c');
            world = w';
          }))
        × (length out ≤ len)
  read_loop-Rounds zero r fits enough = absurd (omega arith)
  read_loop-Rounds (suc fuel) (complete buf c w h) fits enough =
      (read_loop_complete fuel buf c w h, fits)
  read_loop-Rounds (suc fuel) (at_end buf c c' w w' h e) fits enough =
      (read_loop-end fuel buf c c' w w' h e, fits)
  read_loop-Rounds (suc fuel) (piece buf bs c c1 w w1 h e some_bytes small r) fits enough =
      let more =
        read_loop-Rounds fuel r (omega (arith, length-append buf bs, next_size-le (length buf)))
          (omega (arith, length-append buf bs)) in
      (read_loop-piece fuel buf bs c c1 w w1 h e some_bytes small ∙ more.0, more.1)

  -- A ready client and an open handle lead to the loop.
  file_read-loop :
      (fuel : ℕ) (c : AfcClient) (w : W)
      → IsReady c
      → handle ≢ 0
      → afc_file_read ch fuel (some c) handle len w
        ≡ read_loop ch fuel handle len [] (record c { locked = true }) w
  unfolding afc_file_read
  file_read-loop fuel c w ready open_handle = ground arith

  -- If the client is ready, the handle is not 0, and the device answers every request of the read
  -- with data, at most as much as was asked for, until the read is complete or an empty packet
  -- ends it, then afc_file_read with more than `len` rounds of fuel returns success with exactly
  -- the bytes of those answers, no more than the `len` bytes of the caller's buffer, and with
  -- their number; and the client is left with its mutex free.
  pub file_read-Rounds :
      (c c' : AfcClient) (w w' : W) (out : List ℕ) (fuel : ℕ)
      → IsReady c
      → handle ≢ 0
      → len < fuel
      → Rounds [] (record c { locked = true }) w out c' w'
      → (afc_file_read ch fuel (some c) handle len w
          ≡ done (record {
            ret = Error.success;
            copied = out;
            bytes_read = some (length out);
            client = some (record c' { locked = false });
            world = w';
          }))
        × (length out ≤ len)
  unfolding afc_unlock
  file_read-Rounds c c' w w' out fuel ready open_handle enough r =
      let whole = read_loop-Rounds fuel r (omega arith) (omega arith) in
      (file_read-loop fuel c w ready open_handle ∙ whole.0, whole.1)

  -- The bug: in a round in which the device answers with success and a piece, if what has been
  -- copied and the piece, cut to the length of the whole read, are together longer than the
  -- caller's buffer, the copy leaves that buffer; the piece is not cut to the room that is left.
  pub read_loop_overflows :
      (fuel : ℕ) (buf bs : List ℕ) (c c1 : AfcClient) (w w1 : W)
      → length buf < len
      → asked buf c w ≡ done (received bs, c1, w1)
      → len < length buf + min len (length bs)
      → read_loop ch (suc fuel) handle len buf c w ≡ fault buffer_overflow
  read_loop_overflows fuel buf bs c c1 w w1 h e over =
      read_loop-round fuel buf c c1 w w1 _ h e
      ∙ ap (λ o. o >>= λ step. resume ch step buf c1 w1 (λ b. read_loop ch fuel handle len b c1 w1))
          (read_step-overflow buf bs h over)
