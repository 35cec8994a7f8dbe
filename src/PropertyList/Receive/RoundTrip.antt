-- ===== src/PropertyList/Receive/RoundTrip.antt =====
-- src/property_list_service.c: internal_plist_receive_timeout on the bytes of internal_plist_send.
use libiphone_debian.Common.{
  inr, inl, ◌⊎◌, ap, drop, sym, drop-append_length, drop_all, take-append_length, ◌^◌, ◌∙◌, zero,
  false, refl, suc, [], true, arith, take, ◌-◌, length, some, Bool, List, Option, if◌then◌else◌,
  length-append, ℕ, ◌++◌, ◌<◌, ◌∷◌, ◌≡◌, ◌≤◌,
}
use libiphone_debian.Common.CString.{IsCString, string_eq}
use libiphone_debian.Common.Outcome.{done}
use libiphone_debian.Common.Bytes.{be_bytes, be_value, be_value-be_bytes32, length-be_bytes}
use libiphone_debian.PropertyList.{PlistClient, Libplist, PlistServiceError}
use libiphone_debian.PropertyList.Receive.{
  internal_plist_receive_timeout, receive_content, parsed, convert, gather, spaced, bplist_magic,
}
use libiphone_debian.Channel.{IsReliable, Channel}
use mathlib.Core.List.{append-nil}
use libiphone_debian.Idevice.{Connection}
use libiphone_debian.PropertyList.Send.{internal_plist_send, plist_send_frames}

-- What libplist documents: a plist comes back from either form, a binary one starts with "bplist00",
-- an XML one does not and holds no NUL.
pub record IsFaithful {P : Type 0} (lib : Libplist P) : Type 0 where
  pub bin_back : (p : P) → lib.from_bin (lib.to_bin p) ≡ some p
  pub xml_back : (p : P) → lib.from_xml (lib.to_xml p) ≡ some p
  pub bin_magic : (p : P) → string_eq (take 8 (lib.to_bin p)) bplist_magic ≡ true
  pub xml_magic : (p : P) → string_eq (take 8 (lib.to_xml p)) bplist_magic ≡ false
  pub xml_IsCString : (p : P) → IsCString (lib.to_xml p)

spaced-IsCString : (bs : List ℕ) → IsCString bs → spaced bs ≡ bs
unfolding spaced
spaced-IsCString [] h = refl
spaced-IsCString (b ∷ []) h = refl
spaced-IsCString (b ∷ (c ∷ bs)) h = ground (arith, spaced-IsCString (c ∷ bs) h.1)

module _ {P : Type 0} (lib : Libplist P) (faithful : IsFaithful lib) where
  convert-content :
      (p : P) (binary : Bool) (before : Option P)
      → 8 ≤ length (if binary then lib.to_bin p else lib.to_xml p)
      → convert lib (if binary then lib.to_bin p else lib.to_xml p) before
        ≡ done (PlistServiceError.success, some p)
  unfolding convert parsed
  convert-content p true before h = ground (arith, faithful.bin_back p, faithful.bin_magic p)
  convert-content p false before h =
      let clean = spaced-IsCString (lib.to_xml p) (faithful.xml_IsCString p) in
      ground (arith, clean, faithful.xml_back p, faithful.xml_magic p)

-- The rest of `n` bytes comes over the channel, a piece of one byte or more at a time: from what has
-- come before and a world to all of the bytes and the world behind them.
pub data Pieces {W : Type 0} (inp : Channel W) (n : ℕ) : List ℕ → W → List ℕ → W → Type 0 where
  whole : {buf : List ℕ} {w : W} → length buf ≡ n → Pieces inp n buf w buf w
  piece :
      {buf out bs : List ℕ} {w w1 w2 : W}
      → length buf < n
      → 0 < length bs
      → inp.receive (n - length buf) w ≡ (bs, w1)
      → Pieces inp n (buf ++ bs) w1 out w2
      → Pieces inp n buf w out w2

module _ {W : Type 0} (inp : Channel W) where
  gather-Pieces :
      (fuel n : ℕ) {buf out : List ℕ} {w w' : W}
      → Pieces inp n buf w out w'
      → n - length buf < fuel
      → (gather inp fuel n buf w ≡ done (out, w')) × (length out ≡ n)
  unfolding gather
  gather-Pieces zero n p enough = absurd (omega arith)
  gather-Pieces (suc fuel) n (whole e) enough = (ground arith, e)
  gather-Pieces (suc fuel) n (piece {buf} {out} {bs} less some_bytes e p) enough =
      let rest = gather-Pieces fuel n p (omega (arith, length-append buf bs)) in
      (ground (arith, rest.0), rest.1)

  receive_content-Pieces :
      {P : Type 0} (lib : Libplist P) (ch : Connection → Channel W) (fresh : ℕ → List ℕ) (n : ℕ)
      (content : List ℕ) (p : P) (before : Option P) (w w' : W)
      → length (fresh n) ≡ n
      → convert lib content before ≡ done (PlistServiceError.success, some p)
      → Pieces inp n [] w content w'
      → receive_content lib ch fresh inp n before w ≡ done (PlistServiceError.success, some p, w')
  unfolding receive_content
  receive_content-Pieces lib ch fresh n content p before w w' sized e pieces =
      let (g, l) = gather-Pieces (suc n) n pieces (omega arith) in
      let nothing_left : drop (length content) (fresh n) ≡ [] =
        drop_all (length content) (fresh n) (omega arith) in
      rw (g, nothing_left, append-nil content, e) refl

-- What has been sent where there is something to send.
framed_of :
    {A B C : Type 0} (log out bytes : List ℕ)
    → 0 < length bytes
    → ((0 < length bytes) × A × (out ≡ log ++ (be_bytes 4 (length bytes) ++ bytes)))
      ⊎ ((length bytes ≡ 0) × B × C)
    → out ≡ log ++ (be_bytes 4 (length bytes) ++ bytes)
framed_of log out bytes some_bytes (inl (a, b, e)) = e
framed_of log out bytes some_bytes (inr (none_left, b, c)) = absurd (omega arith)

-- Two frames of a head of the same length that are the same bytes behind the same log.
same_frame :
    (log a b c d : List ℕ)
    → log ++ (a ++ b) ≡ log ++ (c ++ d)
    → length a ≡ length c
    → (a ≡ c) × (b ≡ d)
same_frame log a b c d e n =
    let whole : a ++ b ≡ c ++ d =
      sym (drop-append_length log (a ++ b))
      ∙ ap (drop (length log)) e
      ∙ drop-append_length log (c ++ d) in
    (
      sym (take-append_length a b)
          ∙ ap (take (length a)) whole
          ∙ ap (λ k. take k (c ++ d)) n
          ∙ take-append_length c d,
      sym (drop-append_length a b)
          ∙ ap (drop (length a)) whole
          ∙ ap (λ k. drop k (c ++ d)) n
          ∙ drop-append_length c d,
    )

module _ {P V W : Type 0} (lib : Libplist P) (faithful : IsFaithful lib)
    (out : Connection → Channel V) (inp : Connection → Channel W) (fresh : ℕ → List ℕ)
    (sized : (n : ℕ) → length (fresh n) ≡ n) where
  -- A plist that libplist converts to at least 8 and fewer than 2 ^ 24 bytes, and back, is sent,
  -- as binary or as XML, over a connection that hands every byte over. If another client gets
  -- those bytes, four of them by the first receive and the others in any pieces, it receives the
  -- same plist, with success.
  pub receive_plist-send_plist :
      (sender receiver : PlistClient) (c d : Connection) (sent : V → List ℕ) (p : P) (binary : Bool)
      (before : Option P) (timeout : ℕ) (v : V) (w w1 w2 : W) (head content : List ℕ)
      → sender.connection ≡ some c
      → receiver.connection ≡ some d
      → IsReliable (out c) sent
      → 8 ≤ length (if binary then lib.to_bin p else lib.to_xml p)
      → length (if binary then lib.to_bin p else lib.to_xml p) < 2 ^ 24
      → sent (internal_plist_send lib out (some sender) (some p) binary v).1
        ≡ sent v ++ (head ++ content)
      → length head ≡ 4
      → (inp d).receive_timeout 4 timeout w ≡ (head, w1)
      → Pieces (inp d) (length content) [] w1 content w2
      → internal_plist_receive_timeout lib inp fresh (some receiver) (some before) timeout w
        ≡ done (PlistServiceError.success, some p, w2)
  unfolding internal_plist_receive_timeout
  receive_plist-send_plist sender receiver c d sent p binary before timeout v w w1 w2 head content
        es er rel long small logged four first pieces =
      let bytes = if binary then lib.to_bin p else lib.to_xml p in
      let framed =
        framed_of (sent v) _ bytes (omega arith)
          (plist_send_frames lib out sender c sent p binary v es rel (omega arith)) in
      let (is_head, is_content) =
        same_frame (sent v) head content (be_bytes 4 (length bytes)) bytes (sym logged ∙ framed)
          (four ∙ sym (length-be_bytes 4 (length bytes))) in
      let value : be_value head ≡ length content =
        ap be_value is_head
        ∙ be_value-be_bytes32 (length bytes) (omega arith)
        ∙ ap length (sym is_content) in
      let answer =
        receive_content-Pieces (inp d) lib inp fresh (length content) content p before w1 w2
          (sized _)
          (ap (λ x. convert lib x before) is_content
            ∙ convert-content lib faithful p binary before long)
          pieces in
      let n = ap length is_content in rw (er, first, value) (ground (arith, four, n, small, answer))
