-- ===== src/PropertyList/Receive/Ending.antt =====
-- src/property_list_service.c: internal_plist_receive_timeout on any input.
use libiphone_debian.Common.{
  if◌then◌else◌, refl, inr, inl, [], drop, ltb, length-drop, Bool-cases, Option-cases, zero, suc,
  arith, ◌-◌, length, none, some, List, Option, length-append, ℕ, ◌++◌, ◌<◌, ◌^◌, ◌≡◌, ◌≤◌, ◌⊎◌,
}
use libiphone_debian.PropertyList.Receive.{
  parsed, internal_plist_receive_timeout, receive_content, convert, gather,
}
use libiphone_debian.PropertyList.{PlistClient, Libplist, PlistServiceError}
use libiphone_debian.Common.Bytes.{be_value}
use libiphone_debian.Common.Outcome.{Outcome, Returns-done, done, fault, Returns, over_read}
use libiphone_debian.Idevice.{Connection}
use libiphone_debian.Channel.{Channel}

-- What a receive answers with behind a header of which `got` bytes came and which gives the length
-- `n`: a plist, no plist, or the pointer as it was with a code that the header alone decides.
abbrev pub IsReply : {P W : Type 0} → ℕ → ℕ → Option P → PlistServiceError × Option P × W → Type 0
IsReply {P} got n before (PlistServiceError.success, p, w) =
    (4 ≤ got) × (n < 2 ^ 24) × (q : P) × (p ≡ some q)
IsReply got n before (PlistServiceError.plist_error, p, w) = (4 ≤ got) × (n < 2 ^ 24) × (p ≡ none)
IsReply got n before (PlistServiceError.mux_error, p, w) = (got < 4) × (p ≡ before)
IsReply got n before (PlistServiceError.unknown_error, p, w) =
    (4 ≤ got) × (2 ^ 24 ≤ n) × (p ≡ before)
IsReply got n before (_, p, w) = ⊥

module _ {W : Type 0} where
  gather-Returns :
      (inp : Channel W) (fuel n : ℕ) (buf : List ℕ) (w : W)
      → length buf ≤ n
      → n - length buf < fuel
      → Returns (λ x. length x.0 ≤ n) (gather inp fuel n buf w)
  unfolding gather
  gather-Returns inp zero n buf w h enough = absurd (omega arith)
  gather-Returns inp (suc fuel) n buf w h enough =
      let (got, w') = inp.receive (n - length buf) w in
      ground (
        arith,
        length-append buf got,
        inp.receive_le (n - length buf) w,
        gather-Returns inp fuel n (buf ++ got) w',
      )

  gather-done :
      (inp : Channel W) (n : ℕ) (w : W)
      → (got : List ℕ) × (w' : W) × (gather inp (suc n) n [] w ≡ done (got, w')) × (length got ≤ n)
  gather-done inp n w =
      let ((got, w'), e, h) =
        Returns-done _ _ (gather-Returns inp (suc n) n [] w (omega arith) (omega arith)) in
      (got, w', e, h)

module _ {P : Type 0} (lib : Libplist P) where
  -- A conversion answers for a buffer of eight bytes or more.
  convert-cases :
      (content : List ℕ) (before : Option P)
      → ((length content < 8) × (convert lib content before ≡ fault over_read))
        ⊎ ((p : P) × (convert lib content before ≡ done (PlistServiceError.success, some p)))
        ⊎ (convert lib content before ≡ done (PlistServiceError.plist_error, none))
  unfolding convert
  convert-cases content before = elim (Bool-cases (ltb (length content) 8)) [
    | inl t ↦ inl (ground arith)
    | inr f ↦ elim (Option-cases (parsed lib content before)) [
      | inl e ↦ inr (inr (ground arith))
      | inr (p, e) ↦ inr (inl (p, ground arith))
    ]
  ]

module _ {P W : Type 0} (lib : Libplist P) (ch : Connection → Channel W) (fresh : ℕ → List ℕ)
    (sized : (n : ℕ) → length (fresh n) ≡ n) where
  content-cases :
      (inp : Channel W) (n : ℕ) (before : Option P) (w : W)
      → ((n < 8) × (receive_content lib ch fresh inp n before w ≡ fault over_read))
        ⊎ ((p : P) × (w' : W) × (receive_content lib ch fresh inp n before w
              ≡ done (PlistServiceError.success, some p, w')))
        ⊎ ((w' : W) × (receive_content lib ch fresh inp n before w
              ≡ done (PlistServiceError.plist_error, none, w')))
  unfolding receive_content
  content-cases inp n before w =
      let (got, w', e, h) = gather-done inp n w in
      let content = got ++ drop (length got) (fresh n) in
      let size : length content ≡ n = omega (
        arith,
        length-append got (drop (length got) (fresh n)),
        length-drop (length got) (fresh n),
        sized n,
      ) in
      elim (convert-cases lib content before) [
        | inl (small, f) ↦ inl (omega arith, rw (e, f) refl)
        | inr (inl (p, f)) ↦ inr (inl (p, w', rw (e, f) refl))
        | inr (inr f) ↦ inr (inr (w', rw (e, f) refl))
      ]

  -- The tests of the header around a reception that ends in one of the three ways.
  answered :
      (got n : ℕ) (before : Option P) (w : W) (m : Outcome (PlistServiceError × Option P × W))
      → ((n < 8) × (m ≡ fault over_read))
        ⊎ ((p : P) × (w' : W) × (m ≡ done (PlistServiceError.success, some p, w')))
        ⊎ ((w' : W) × (m ≡ done (PlistServiceError.plist_error, none, w')))
      → let r =
          if ltb got 4
          then done (PlistServiceError.mux_error, before, w)
          else if ltb n (2 ^ 24)
          then m
          else done (PlistServiceError.unknown_error, before, w) in
        Returns (IsReply got n before) r ⊎ ((r ≡ fault over_read) × (4 ≤ got) × (n < 8))
  answered got n before w m cases = elim (Bool-cases (ltb got 4)) [
    | inl t ↦ rw t (inl (ground arith, refl))
    | inr f ↦ elim (Bool-cases (ltb n (2 ^ 24))) [
      | inl t ↦ elim cases [
        | inl (small, e) ↦ inr (rw (f, t, e) refl, ground arith, small)
        | inr (inl (p, w', e)) ↦ rw (f, t, e) (inl (ground arith, ground arith, p, refl))
        | inr (inr (w', e)) ↦ rw (f, t, e) (inl (ground arith, ground arith, refl))
      ]
      | inr g ↦ rw (f, g) (inl (ground arith, ground arith, refl))
    ]
  ]

  -- On a client with a connection, where a new buffer has the size that was asked for,
  -- internal_plist_receive_timeout returns whatever comes, in pieces or not at all, with one
  -- exception: a header of four bytes that announces fewer than eight makes memcmp read past the
  -- buffer. Behind a full header that announces 2 ^ 24 bytes or more the result is an unknown
  -- error; otherwise it is a plist or a plist error, and never MUX_ERROR, also where the
  -- connection breaks in the middle.
  pub receive_plist-IsReply :
      (client : PlistClient) (c : Connection) (before : Option P) (timeout : ℕ) (w : W)
      → client.connection ≡ some c
      → let head = ((ch c).receive_timeout 4 timeout w).0 in
        let r = internal_plist_receive_timeout lib ch fresh (some client) (some before) timeout w in
        Returns (IsReply (length head) (be_value head) before) r
        ⊎ ((r ≡ fault over_read) × (4 ≤ length head) × (be_value head < 8))
  unfolding internal_plist_receive_timeout
  receive_plist-IsReply client c before timeout w e =
      let (head, w') = (ch c).receive_timeout 4 timeout w in
      rw e (
        answered (length head) (be_value head) before w' _
          (content-cases (ch c) (be_value head) before w'))
