-- ===== src/PropertyList/Send.antt =====
-- src/property_list_service.c: internal_plist_send: the length, big-endian, and then the plist.
use libiphone_debian.Common.{
  ◌⊎◌, arith, none, ap, ◌∙◌, ltb, not, false, length, some, true, Bool, List, Option, if◌then◌else◌,
  ℕ, ◌%◌, ◌&&◌, ◌++◌, ◌<◌, ◌==◌, ◌^◌, ◌≡◌,
}
use libiphone_debian.PropertyList.{Libplist, PlistClient, PlistServiceError}
use libiphone_debian.Common.Bytes.{length-be_bytes, be_bytes}
use mathlib.Core.List.{append_assoc}
use libiphone_debian.Idevice.{Connection}
use libiphone_debian.Channel.{Channel, IsReliable}

module _ {P W : Type 0} (lib : Libplist P) (ch : Connection → Channel W) where
  -- The two sends. The count is read as an int, so one of 2 ^ 31 or more counts as none.
  unfoldable pub send_content : Channel W → List ℕ → W → PlistServiceError × W
  send_content out content w =
      let len = length content % 2 ^ 32 in
      let (bytes, w1) = out.send (be_bytes 4 len) w in
      let (sent, w2) = out.send content w1 in
      if len == 0
      then (PlistServiceError.plist_error, w)
      else if not (bytes == 4)
      then (PlistServiceError.unknown_error, w1)
      else if ltb 0 sent && ltb sent (2 ^ 31) && sent == len
      then (PlistServiceError.success, w2)
      else (PlistServiceError.unknown_error, w2)

  unfoldable pub internal_plist_send :
      Option PlistClient → Option P → Bool → W → PlistServiceError × W
  internal_plist_send (some client) (some plist) binary w = elim client.connection [
    | none ↦ (PlistServiceError.invalid_arg, w)
    | some c ↦ send_content (ch c) (if binary then lib.to_bin plist else lib.to_xml plist) w
  ]
  internal_plist_send client plist binary w = (PlistServiceError.invalid_arg, w)

  pub property_list_service_send_xml_plist :
      Option PlistClient → Option P → W → PlistServiceError × W
  property_list_service_send_xml_plist client plist w = internal_plist_send client plist false w

  pub property_list_service_send_binary_plist :
      Option PlistClient → Option P → W → PlistServiceError × W
  property_list_service_send_binary_plist client plist w = internal_plist_send client plist true w

  send_content_frames :
      (out : Channel W) (sent : W → List ℕ) (content : List ℕ) (w : W)
      → IsReliable out sent
      → length content < 2 ^ 31
      → let r = send_content out content w in
        ((0 < length content)
          × (r.0 ≡ PlistServiceError.success)
          × (sent r.1 ≡ sent w ++ (be_bytes 4 (length content) ++ content)))
        ⊎ ((length content ≡ 0) × (r.0 ≡ PlistServiceError.plist_error) × (r.1 ≡ w))
  unfolding send_content
  send_content_frames out sent content w rel small =
      let n : length content % 2 ^ 32 ≡ length content = omega arith in
      let head = be_bytes 4 (length content % 2 ^ 32) in
      let w1 = (out.send head w).1 in
      let logged =
        rel.send_logs content w1
        ∙ ap (λ s. s ++ content) (rel.send_logs head w)
        ∙ append_assoc (sent w) head content
        ∙ ap (λ m. sent w ++ (be_bytes 4 m ++ content)) n in
      ground (
        arith,
        n,
        logged,
        length-be_bytes 4 (length content % 2 ^ 32),
        rel.sends_all head w,
        rel.sends_all content w1,
      )

  -- Over a connection that hands every byte over, a plist that converts to some bytes, fewer than
  -- 2 ^ 31, is sent with success, as its length in four bytes, big-endian, and those bytes; one that
  -- converts to none is an error, and nothing is sent.
  pub plist_send_frames :
      (client : PlistClient) (c : Connection) (sent : W → List ℕ) (plist : P) (binary : Bool)
      (w : W)
      → client.connection ≡ some c
      → IsReliable (ch c) sent
      → let content = if binary then lib.to_bin plist else lib.to_xml plist in
        let r = internal_plist_send (some client) (some plist) binary w in
        length content < 2 ^ 31
        → ((0 < length content)
            × (r.0 ≡ PlistServiceError.success)
            × (sent r.1 ≡ sent w ++ (be_bytes 4 (length content) ++ content)))
          ⊎ ((length content ≡ 0) × (r.0 ≡ PlistServiceError.plist_error) × (sent r.1 ≡ sent w))
  unfolding internal_plist_send send_content
  plist_send_frames client c sent plist binary w e rel small =
      let content = if binary then lib.to_bin plist else lib.to_xml plist in
      ground (arith, send_content_frames (ch c) sent content w rel small)
