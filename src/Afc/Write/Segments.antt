-- ===== src/Afc/Write/Segments.antt =====
-- src/afc.c: afc_file_write over a channel that sends everything.
use libiphone_debian.Afc.Write.Frames.{
  frames, dispatch_write-frame, frames-nil, frames-rest, frames-suc,
}
use libiphone_debian.Common.Outcome.{done}
use libiphone_debian.Common.{
  false, true, ◌/◌, ◌≢◌, refl, drop-drop, length-drop, length-take, take_all, sym, ap₂, ◌-◌, some,
  zero, suc, drop, take, [], ◌∙◌, ◌≤◌, ap, arith, length, List, ℕ, ◌%◌, ◌++◌, ◌+◌, ◌<◌, ◌^◌, ◌≡◌,
}
use libiphone_debian.Afc.Write.{
  afc_file_write, write_segments, WriteStep, write_rest, write_segment, max_write, dispatch_write,
}
use mathlib.Core.List.{append_assoc, append-nil}
use libiphone_debian.Afc.Session.Soundness.{IsReady, IsSound}
use libiphone_debian.Afc.Write.Locking.{dispatch_write-IsSound}
use libiphone_debian.Afc.Transfer.Receiving.{receive_data_keeps}
use libiphone_debian.Afc.Session.{afc_unlock}
use libiphone_debian.Afc.Transfer.{Received, afc_receive_data}
use libiphone_debian.Afc.Transfer.Framing.{counted}
use libiphone_debian.Afc.Packet.{AfcClient}
use libiphone_debian.Channel.{Channel, IsReliable}
use libiphone_debian.Afc.Error

module _ {W : Type 0} (ch : Channel W) (handle : ℕ) where
  -- The device replies to each packet of a write with success.
  pub data Acked : ℕ → List ℕ → AfcClient → W → AfcClient → W → Type 0 where
    nothing : (c : AfcClient) (w : W) → Acked 0 [] c w c w
    rest :
        (bytes : List ℕ) (c : AfcClient) (w w' : W) (r : Received)
        → 0 < length bytes
        → length bytes < max_write
        → afc_receive_data ch
            (dispatch_write ch handle bytes (length bytes) c w).client
            (dispatch_write ch handle bytes (length bytes) c w).world
          ≡ done (r, w')
        → r.ret ≡ Error.success
        → Acked 0 bytes c w (dispatch_write ch handle bytes (length bytes) c w).client w'
    segment :
        {c' : AfcClient} {w' : W} (segments : ℕ) (bytes : List ℕ) (c : AfcClient) (w w1 : W)
        (r : Received)
        → max_write ≤ length bytes
        → afc_receive_data ch
            (dispatch_write ch handle (take max_write bytes) max_write c w).client
            (dispatch_write ch handle (take max_write bytes) max_write c w).world
          ≡ done (r, w1)
        → r.ret ≡ Error.success
        → Acked segments
            (drop max_write bytes)
            (dispatch_write ch handle (take max_write bytes) max_write c w).client
            w1
            c'
            w'
        → Acked (suc segments) bytes c w c' w'

  -- One segment, and the rest, where the reply is success.
  write_segment-acked :
      (bytes left : List ℕ) (cur : ℕ) (c : AfcClient) (w w1 : W) (r : Received)
      → left ≡ drop cur bytes
      → let d = dispatch_write ch handle (take max_write left) max_write c w in
        (cur + max_write ≤ length bytes)
        → (cur + d.bytes_sent < 2 ^ 32)
        → (d.ret ≡ Error.success)
        → (afc_receive_data ch d.client d.world ≡ done (r, w1))
        → (r.ret ≡ Error.success)
        → write_segment ch handle bytes cur c w
          ≡ done (WriteStep.more (cur + d.bytes_sent) d.client w1)
  unfolding write_segment
  write_segment-acked bytes left cur c w w1 r at_cur fits small sent_ok e ok =
      rw (← at_cur) (ground arith)

  write_rest-acked :
      (bytes left : List ℕ) (cur n : ℕ) (c : AfcClient) (w w1 : W) (r : Received)
      → left ≡ drop cur bytes
      → (0 < n)
      → (cur + n ≡ length bytes)
      → (length bytes < 2 ^ 32)
      → take n left ≡ left
      → let d = dispatch_write ch handle left n c w in
        (d.bytes_sent ≡ n)
        → (d.ret ≡ Error.success)
        → (afc_receive_data ch d.client d.world ≡ done (r, w1))
        → (r.ret ≡ Error.success)
        → write_rest ch handle bytes cur c w
          ≡ done (record {
            ret = Error.success;
            bytes_written = some (length bytes);
            client = some (afc_unlock d.client);
            world = w1;
          })
  unfolding write_rest
  write_rest-acked bytes left cur n c w w1 r at_cur pos counts small whole sent_n sent_ok e ok =
      let m : (length bytes + 2 ^ 32 - cur) % 2 ^ 32 ≡ n = omega arith in
      rw (← at_cur, m, whole) (ground arith)

  write_rest-done :
      (bytes : List ℕ) (cur : ℕ) (c : AfcClient) (w : W)
      → cur ≡ length bytes
      → write_rest ch handle bytes cur c w
        ≡ done (record {
          ret = Error.success;
          bytes_written = some (length bytes);
          client = some (afc_unlock c);
          world = w;
        })
  unfolding write_rest
  write_rest-done bytes cur c w e = ground arith

  file_write-segments :
      (bytes : List ℕ) (c : AfcClient) (w : W)
      → IsReady c
      → handle ≢ 0
      → afc_file_write ch (some c) handle bytes true w
        ≡ write_segments ch (length bytes / max_write) handle bytes 0 (record c { locked = true }) w
  unfolding afc_file_write
  file_write-segments bytes c w ready open_handle = ground arith

  write_segments-zero :
      (bytes : List ℕ) (cur : ℕ) (c : AfcClient) (w : W)
      → write_segments ch 0 handle bytes cur c w ≡ write_rest ch handle bytes cur c w
  unfolding write_segments
  write_segments-zero bytes cur c w = refl

  write_segments-step :
      (k : ℕ) (bytes : List ℕ) (cur cur' : ℕ) (c c1 : AfcClient) (w w1 : W)
      → write_segment ch handle bytes cur c w ≡ done (WriteStep.more cur' c1 w1)
      → write_segments ch (suc k) handle bytes cur c w ≡ write_segments ch k handle bytes cur' c1 w1
  unfolding write_segments
  write_segments-step k bytes cur cur' c c1 w w1 e = rw e

module _ {W : Type 0} (ch : Channel W) {sent : W → List ℕ} (rel : IsReliable ch sent)
    (handle : ℕ) where
  -- What a reply leaves of the log.
  reply_keeps :
      (c : AfcClient) (w w1 : W) (r : Received)
      → afc_receive_data ch c w ≡ done (r, w1)
      → sent w1 ≡ sent w
  reply_keeps c w w1 r e = rw e at (receive_data_keeps ch rel c w)

  write_segments-Acked :
      (segments : ℕ) {left : List ℕ} {c : AfcClient} {w : W} {c' : AfcClient} {w' : W}
      (bytes : List ℕ) (cur : ℕ)
      → Acked ch handle segments left c w c' w'
      → left ≡ drop cur bytes
      → cur + length left ≡ length bytes
      → length bytes < 2 ^ 32
      → IsSound c
      → (write_segments ch segments handle bytes cur c w
          ≡ done (record {
            ret = Error.success;
            bytes_written = some (length bytes);
            client = some (afc_unlock c');
            world = w';
          }))
        × (sent w' ≡ sent w ++ frames handle (counted c) segments left)
  write_segments-Acked zero bytes cur (nothing c w) at_cur counts small h = (
    write_segments-zero ch handle bytes cur c w
        ∙ write_rest-done ch handle bytes cur c w (omega arith),
    sym (ap (◌++◌ (sent w)) (frames-nil handle (counted c)) ∙ append-nil (sent w)),
  )
  write_segments-Acked zero bytes cur (rest left c w w' r some_bytes short e ok) at_cur counts small
        h =
      let f =
        dispatch_write-frame ch rel handle left (length left) c w h refl some_bytes (omega arith) in
      (
        write_segments-zero ch handle bytes cur c w
            ∙ write_rest-acked ch handle bytes left cur (length left) c w w' r at_cur some_bytes
                counts small (take_all (length left) left (omega arith)) f.2 f.0 e ok,
        reply_keeps _ _ w' r e
            ∙ f.1
            ∙ ap (◌++◌ (sent w)) (frames-rest handle (counted c) left some_bytes),
      )
  write_segments-Acked (suc k) bytes cur (segment k' left c w w1 r long e ok more) at_cur counts
        small h =
      let f =
        dispatch_write-frame ch rel handle (take max_write left) max_write c w h
          (omega (arith, length-take max_write left)) (omega arith) (omega arith) in
      let d = dispatch_write ch handle (take max_write left) max_write c w in
      let later =
        write_segments-Acked k bytes (cur + d.bytes_sent) more
          (ap (drop max_write) at_cur
            ∙ drop-drop max_write cur bytes
            ∙ ap (λ n. drop (cur + n) bytes) (sym f.2))
          (omega (arith, length-drop max_write left, f.2)) small
          (dispatch_write-IsSound ch handle (take max_write left) max_write c w h) in
      (
        write_segments-step ch handle k bytes cur (cur + d.bytes_sent) c d.client w w1 (
              write_segment-acked ch handle bytes left cur c w w1 r at_cur (omega (arith, f.2))
                (omega (arith, f.2)) f.0 e ok)
            ∙ later.0,
        later.1
            ∙ ap₂ (λ s n. s ++ frames handle n k (drop max_write left))
                (reply_keeps _ _ w1 r e ∙ f.1) f.3
            ∙ append_assoc (sent w) _ _
            ∙ ap (◌++◌ (sent w)) (sym (frames-suc handle (counted c) k left)),
      )

  -- If the channel sends everything and the device replies to each packet with success, then
  -- afc_file_write of fewer than 2 ^ 32 bytes from a ready client with a handle other than 0
  -- returns success with the full length as the count; it has sent one packet for each 32 KiB of
  -- the data, in order and under successive numbers, and one for what is left, if anything is; and
  -- the mutex is free.
  pub file_write-Acked :
      (c c' : AfcClient) (w w' : W) (bytes : List ℕ)
      → IsReady c
      → handle ≢ 0
      → length bytes < 2 ^ 32
      → Acked ch handle (length bytes / max_write) bytes (record c { locked = true }) w c' w'
      → (afc_file_write ch (some c) handle bytes true w
          ≡ done (record {
            ret = Error.success;
            bytes_written = some (length bytes);
            client = some (record c' { locked = false });
            world = w';
          }))
        × (sent w' ≡ sent w ++ frames handle (counted c) (length bytes / max_write) bytes)
  unfolding afc_unlock
  file_write-Acked c c' w w' bytes ready open_handle small acked =
      let locked = record c { locked = true } in
      let sound : IsSound locked = record {
        connected = ready.sound.connected;
        magic = ready.sound.magic;
        numbered = ready.sound.numbered;
      } in
      let whole =
        write_segments-Acked (length bytes / max_write) bytes 0 acked refl (omega arith) small
          sound in
      (file_write-segments ch handle bytes c w ready open_handle ∙ whole.0, whole.1)
