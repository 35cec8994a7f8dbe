-- ===== src/PropertyList/Receive.antt =====
-- src/property_list_service.c: internal_plist_receive_timeout.
pub mod Ending
pub mod RoundTrip
use libiphone_debian.Common.{
  drop, zero, length, ◌-◌, ltb, none, suc, [], some, take, List, Option, if◌then◌else◌, ℕ, ◌++◌,
  ◌==◌, ◌^◌, ◌∷◌,
}
use libiphone_debian.Common.Outcome.{◌>>=◌, fault, done, running, Outcome, over_read}
use libiphone_debian.Common.CString.{CString, string_eq}
use libiphone_debian.PropertyList.{
  Libplist, PlistClient, PlistServiceError, invalid_arg, mux_error, plist_error, unknown_error,
}
use libiphone_debian.Idevice.{Connection}
use libiphone_debian.Channel.{Channel}
use libiphone_debian.Common.Bytes.{be_value}

-- "bplist00"
abbrev pub bplist_magic : List ℕ
bplist_magic = b'b' ∷ b'p' ∷ b'l' ∷ b'i' ∷ b's' ∷ b't' ∷ b'0' ∷ b'0' ∷ []

-- NUL characters become spaces, but for the last byte.
pub spaced : List ℕ → List ℕ
spaced [] = []
spaced (b ∷ []) = b ∷ []
spaced (b ∷ (c ∷ bs)) = (if b == 0 then 0x20 else b) ∷ spaced (c ∷ bs)

-- What the pointer to the plist holds behind a conversion.
abbrev pub converted : {P : Type 0} → Option P → Option P → Option P
converted none before = before
converted (some p) before = some p

module _ {W : Type 0} where
  -- The loop: `buf` is what has come of the `n` bytes; it ends early when nothing more comes.
  pub gather : Channel W → ℕ → ℕ → List ℕ → W → Outcome (List ℕ × W)
  gather inp zero n buf w = running
  gather inp (suc fuel) n buf w =
      let (got, w') = inp.receive (n - length buf) w in
      let rest = gather inp fuel n (buf ++ got) w' in
      if ltb (length buf) n
      then (if length got == 0 then done (buf, w') else rest)
      else done (buf, w)

module _ {P : Type 0} (lib : Libplist P) where
  pub parsed : List ℕ → Option P → Option P
  parsed content before =
      if string_eq (take 8 content) bplist_magic
      then converted (lib.from_bin content) before
      else converted (lib.from_xml (spaced content)) before

  -- The conversion of a buffer. memcmp reads eight bytes of it.
  pub convert : List ℕ → Option P → Outcome (PlistServiceError × Option P)
  convert content before =
      if ltb (length content) 8 then fault over_read else elim (parsed content before) [
        | none ↦ done (PlistServiceError.plist_error, none)
        | some p ↦ done (PlistServiceError.success, some p)
      ]

module _ {P W : Type 0} (lib : Libplist P) (ch : Connection → Channel W) where
  -- `fresh n` is what a new buffer of `n` bytes holds; what does not come is left of it.
  pub receive_content :
      (ℕ → List ℕ) → Channel W → ℕ → Option P → W → Outcome (PlistServiceError × Option P × W)
  receive_content fresh inp n before w = do
    (got, w') ← gather inp (suc n) n [] w
    (e, p) ← convert lib (got ++ drop (length got) (fresh n)) before
    done (e, p, w')

  -- `before` is what the pointer to the plist holds; a pointer that is NULL is `none`.
  pub internal_plist_receive_timeout :
      (ℕ → List ℕ)
      → Option PlistClient
      → Option (Option P)
      → ℕ
      → W
      → Outcome (PlistServiceError × Option P × W)
  internal_plist_receive_timeout fresh (some client) (some before) timeout w =
      elim client.connection [
        | none ↦ done (PlistServiceError.invalid_arg, before, w)
        | some c ↦
            let (head, w') = (ch c).receive_timeout 4 timeout w in
            let content = receive_content fresh (ch c) (be_value head) before w' in
            if ltb (length head) 4
            then done (PlistServiceError.mux_error, before, w')
            else if ltb (be_value head) (2 ^ 24)
            then content
            else done (PlistServiceError.unknown_error, before, w')
      ]
  internal_plist_receive_timeout fresh none (some before) timeout w =
      done (PlistServiceError.invalid_arg, before, w)
  internal_plist_receive_timeout fresh client none timeout w =
      done (PlistServiceError.invalid_arg, none, w)

  pub property_list_service_receive_plist_with_timeout :
      (ℕ → List ℕ)
      → Option PlistClient
      → Option (Option P)
      → ℕ
      → W
      → Outcome (PlistServiceError × Option P × W)
  property_list_service_receive_plist_with_timeout fresh client plist timeout w =
      internal_plist_receive_timeout fresh client plist timeout w

  pub property_list_service_receive_plist :
      (ℕ → List ℕ)
      → Option PlistClient
      → Option (Option P)
      → W
      → Outcome (PlistServiceError × Option P × W)
  property_list_service_receive_plist fresh client plist w =
      internal_plist_receive_timeout fresh client plist 10000 w
