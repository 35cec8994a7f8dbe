-- ===== src/Idevice/Ssl/Balance.antt =====
-- src/idevice.c: the gnutls objects that SSL allocates and gives back, by kind and handle.
use libiphone_debian.Common.{
  if◌then◌else◌, ◌==◌, Bool-cases, sym, inr, inl, some, none, ◌⊎◌, refl, ap, arith, ◌-◌, ℕ, ◌+◌,
  ◌∙◌, ◌≡◌, ◌≢◌,
}
use libiphone_debian.Idevice.Ssl.{
  idevice_connection_disable_ssl, idevice_connection_enable_ssl, open_keys, open_session,
  internal_ssl_cleanup, release_set,
}
use libiphone_debian.Idevice.{Connection, IdeviceError, Gnutls, Kind, Setup, SslData}

abbrev pub one_if_same : Kind → Kind → ℕ
one_if_same Kind.credentials Kind.credentials = 1
one_if_same Kind.session Kind.session = 1
one_if_same Kind.crt Kind.crt = 1
one_if_same Kind.privkey Kind.privkey = 1
one_if_same _ _ = 0

-- The object of kind k with the handle h, counted where j and i are its kind and its handle.
abbrev pub one_if : Kind → ℕ → Kind → ℕ → ℕ
one_if k h j i = if h == i then one_if_same k j else 0

one_if_self : (k : Kind) (h : ℕ) → one_if k h k h ≡ 1
one_if_self Kind.credentials h = ground arith
one_if_self Kind.session h = ground arith
one_if_self Kind.crt h = ground arith
one_if_self Kind.privkey h = ground arith

-- What gnutls documents of the objects that are live, by kind and handle: an allocation adds one, whose
-- handle is not NULL, a release takes a live one back, and the other calls keep the objects there are.
-- Nothing is known of the release of an object that is not live.
pub record IsCounted {W : Type 0} (tls : Gnutls W) (live : W → Kind → ℕ → ℕ) : Type 0 where
  pub allocate_adds :
      (k j : Kind) (i : ℕ) (w : W)
      → live (tls.allocate k w).1 j i ≡ one_if k (tls.allocate k w).0 j i + live w j i
  pub allocate_set : (k : Kind) (w : W) → (tls.allocate k w).0 ≢ 0
  pub release_takes :
      (k j : Kind) (h i : ℕ) (w : W)
      → h ≢ 0
      → live w k h ≢ 0
      → live (tls.release k h w) j i ≡ live w j i - one_if k h j i
  pub setup_keeps : (s : Setup) (j : Kind) (i : ℕ) (w : W) → live (tls.setup s w) j i ≡ live w j i
  pub handshake_keeps :
      (h : ℕ) (j : Kind) (i : ℕ) (w : W) → live (tls.handshake h w).1 j i ≡ live w j i

-- The six objects of an SslData, in the order in which they are given back, on top of others.
abbrev with_owned : SslData → (Kind → ℕ → ℕ) → Kind → ℕ → ℕ
with_owned d others j i =
    one_if Kind.session d.session j i
    + (one_if Kind.credentials d.certificate j i
        + (one_if Kind.crt d.root_cert j i
            + (one_if Kind.crt d.host_cert j i
                + (one_if Kind.privkey d.root_privkey j i
                    + (one_if Kind.privkey d.host_privkey j i + others j i)))))

record IsAllSet (d : SslData) : Type 0 where
  pub certificate : d.certificate ≢ 0
  pub session : d.session ≢ 0
  pub root_privkey : d.root_privkey ≢ 0
  pub root_cert : d.root_cert ≢ 0
  pub host_privkey : d.host_privkey ≢ 0
  pub host_cert : d.host_cert ≢ 0

module _ {W : Type 0} (tls : Gnutls W) {live : W → Kind → ℕ → ℕ}
    (counted : IsCounted tls live) where
  -- The live objects are those that `count` counts.
  abbrev IsLive : W → (Kind → ℕ → ℕ) → Type 0
  IsLive w count = (j : Kind) (i : ℕ) → live w j i ≡ count j i

  -- To give back an object that is live takes it from the others.
  release_set-IsLive :
      (k : Kind) (h : ℕ) (others : Kind → ℕ → ℕ) (w : W)
      → h ≢ 0
      → IsLive w (λ j i. one_if k h j i + others j i)
      → IsLive (release_set tls k h w) others
  release_set-IsLive k h others w set l j i =
      let there : live w k h ≢ 0 = λ e. omega (arith, e, l k h, one_if_self k h) in
      ground (arith, counted.release_takes k j h i w set there, l j i)

  cleanup-IsLive :
      (d : SslData) (others : Kind → ℕ → ℕ) (w : W)
      → IsAllSet d
      → IsLive w (with_owned d others)
      → IsLive (internal_ssl_cleanup tls d w) others
  unfolding internal_ssl_cleanup
  cleanup-IsLive d others w s l =
      release_set-IsLive Kind.privkey d.host_privkey _ _ s.host_privkey (
        release_set-IsLive Kind.privkey d.root_privkey _ _ s.root_privkey (
          release_set-IsLive Kind.crt d.host_cert _ _ s.host_cert (
            release_set-IsLive Kind.crt d.root_cert _ _ s.root_cert (
              release_set-IsLive Kind.credentials d.certificate _ _ s.certificate
                (release_set-IsLive Kind.session d.session _ _ s.session l)))))

  setup-IsLive :
      (s : Setup) (count : Kind → ℕ → ℕ) (w : W) → IsLive w count → IsLive (tls.setup s w) count
  setup-IsLive s count w l j i = counted.setup_keeps s j i w ∙ l j i

  allocate-IsLive :
      (k : Kind) (count : Kind → ℕ → ℕ) (w : W)
      → IsLive w count
      → IsLive (tls.allocate k w).1 (λ j i. one_if k (tls.allocate k w).0 j i + count j i)
  allocate-IsLive k count w l j i =
      counted.allocate_adds k j i w ∙ ap (λ m. one_if k (tls.allocate k w).0 j i + m) (l j i)

  open_session-IsLive :
      (count : Kind → ℕ → ℕ) (w : W)
      → IsLive w count
      → IsLive (open_session tls w).2 (λ j i.
        one_if Kind.session (open_session tls w).1 j i
        + (one_if Kind.credentials (open_session tls w).0 j i + count j i))
  unfolding open_session
  open_session-IsLive count w l = setup-IsLive _ _ _ (
      setup-IsLive _ _ _ (
        setup-IsLive _ _ _ (
          setup-IsLive _ _ _ (
            setup-IsLive _ _ _ (
              setup-IsLive _ _ _ (
                setup-IsLive _ _ _ (
                  allocate-IsLive _ _ _
                    (setup-IsLive _ _ _ (allocate-IsLive _ _ _ (setup-IsLive _ _ _ l))))))))))

  open_session-set : (w : W) → ((open_session tls w).0 ≢ 0) × ((open_session tls w).1 ≢ 0)
  unfolding open_session
  open_session-set w = (counted.allocate_set _ _, counted.allocate_set _ _)

  open_keys-IsLive :
      (certificate session : ℕ) (count : Kind → ℕ → ℕ) (w : W)
      → IsLive w count
      → let d = (open_keys tls (certificate, session, w)).0 in
        IsLive (open_keys tls (certificate, session, w)).1 (λ j i.
          one_if Kind.privkey d.host_privkey j i
          + (one_if Kind.privkey d.root_privkey j i
              + (one_if Kind.crt d.host_cert j i + (one_if Kind.crt d.root_cert j i + count j i))))
  unfolding open_keys
  open_keys-IsLive certificate session count w l = setup-IsLive _ _ _ (
      setup-IsLive _ _ _ (
        allocate-IsLive _ _ _
          (allocate-IsLive _ _ _ (allocate-IsLive _ _ _ (allocate-IsLive _ _ _ l)))))

  open_keys-IsAllSet :
      (certificate session : ℕ) (w : W)
      → certificate ≢ 0
      → session ≢ 0
      → IsAllSet (open_keys tls (certificate, session, w)).0
  unfolding open_keys
  open_keys-IsAllSet certificate session w a b = record {
    certificate = a;
    session = b;
    root_privkey = counted.allocate_set _ _;
    root_cert = counted.allocate_set _ _;
    host_privkey = counted.allocate_set _ _;
    host_cert = counted.allocate_set _ _;
  }

  opened : (w : W) → IsAllSet (open_keys tls (open_session tls w)).0
  opened w = open_keys-IsAllSet _ _ _ (open_session-set w).0 (open_session-set w).1

  opened-IsLive :
      (w : W) → let r = open_keys tls (open_session tls w) in IsLive r.1 (with_owned r.0 (live w))
  unfolding open_keys open_session
  opened-IsLive w j i =
      omega (arith, open_keys-IsLive _ _ _ _ (open_session-IsLive (live w) w (λ j i. refl)) j i)

  -- Switching SSL on: either the handshake fails, the connection is as it was and so are the live
  -- objects, or SSL is on, and what it owns has been added.
  enable_ssl-IsLive :
      (c : Connection) (w : W)
      → c.ssl_data ≡ none
      → let r = idevice_connection_enable_ssl tls (some c) w in
        let d = (open_keys tls (open_session tls w)).0 in
        ((r.0 ≡ IdeviceError.ssl_error) × (r.1 ≡ some c) × IsLive r.2 (live w))
        ⊎ ((r.0 ≡ IdeviceError.success)
            × (r.1 ≡ some (record c { ssl_data = some d }))
            × IsLive r.2 (with_owned d (live w)))
  unfolding idevice_connection_enable_ssl
  enable_ssl-IsLive c w e =
      let (d, w1) = open_keys tls (open_session tls w) in
      let shaken : IsLive (tls.handshake d.session w1).1 (with_owned d (live w)) =
        λ j i. counted.handshake_keeps d.session j i w1 ∙ opened-IsLive w j i in
      let cleaned = cleanup-IsLive d (live w) _ (opened w) shaken in
      elim (Bool-cases (tls.handshake d.session w1).0) [
        | inl t ↦ rw (e, t) (inr (refl, refl, shaken))
        | inr f ↦ rw (e, f) (inl (refl, refl, cleaned))
      ]

  disable_ssl-IsLive :
      (c : Connection) (d : SslData) (others : Kind → ℕ → ℕ) (w : W)
      → IsAllSet d
      → IsLive w (with_owned d others)
      → let r = idevice_connection_disable_ssl tls (some (record c { ssl_data = some d })) w in
        (r.0 ≡ IdeviceError.success)
        × (r.1 ≡ some (record c { ssl_data = none }))
        × IsLive r.2 others
  unfolding idevice_connection_disable_ssl
  disable_ssl-IsLive c d others w s l = (
    refl,
    refl,
    cleanup-IsLive d others _ s
        (λ j i. ground (arith, counted.setup_keeps (Setup.bye d.session) j i w, l j i)),
  )

  disable_ssl-plain :
      (c : Connection) (w : W)
      → c.ssl_data ≡ none
      → idevice_connection_disable_ssl tls (some c) w ≡ (IdeviceError.success, some c, w)
  unfolding idevice_connection_disable_ssl
  disable_ssl-plain c w e = ground arith

  -- If gnutls keeps its objects as it documents, SSL switched on and then off on a connection that
  -- has none, whether the handshake succeeds or fails, returns success in the end, gives the
  -- connection back as it was, and leaves live, by kind and handle, exactly the objects that were
  -- live before.
  pub disable_ssl-enable_ssl :
      (c : Connection) (w : W) (j : Kind) (i : ℕ)
      → c.ssl_data ≡ none
      → let on = idevice_connection_enable_ssl tls (some c) w in
        let off = idevice_connection_disable_ssl tls on.1 on.2 in
        (off.0 ≡ IdeviceError.success) × (off.1 ≡ some c) × (live off.2 j i ≡ live w j i)
  disable_ssl-enable_ssl c w j i e =
      let on = idevice_connection_enable_ssl tls (some c) w in
      let d = (open_keys tls (open_session tls w)).0 in
      elim (enable_ssl-IsLive c w e) [
        | inl (a, b, l) ↦ rw (b, disable_ssl-plain c on.2 e) (refl, refl, l j i)
        | inr (a, b, l) ↦
            let off = disable_ssl-IsLive c d (live w) on.2 (opened w) l in
            rw b (off.0, off.1 ∙ ap (λ s. some (record c { ssl_data = s })) (sym e), off.2 j i)
      ]
