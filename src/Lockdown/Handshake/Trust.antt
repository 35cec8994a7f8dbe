-- ===== src/Lockdown/Handshake/Trust.antt =====
-- src/lockdown.c: the client that lockdownd_client_new_with_handshake hands out.
use libiphone_debian.Common.{
  if_cases, none, some, true, false, Bool, Option, inl, inr, ◌≡◌, refl, ap, ◌∙◌, is_some, ◌&&◌,
}
use libiphone_debian.Common.Outcome.{done_injective, IfDone-done, done, ◌>>=◌, bind_done}
use libiphone_debian.Common.CString.{CString}
use libiphone_debian.Idevice.{Device, succeeded}
use libiphone_debian.Idevice.Devices.{idevice_get_uuid}
use libiphone_debian.Plist.{PlistNodes}
use libiphone_debian.Lockdown.{LockdownError, LockdownClient, LockdownPort, Userpref, is_success}
use libiphone_debian.Lockdown.Pairing.{PairCrypto}
use libiphone_debian.Lockdown.Session.{lockdownd_client_new, lockdownd_client_free}
use libiphone_debian.Lockdown.Session.Start.{Started, lockdownd_start_session}
use libiphone_debian.Lockdown.Values.{lockdownd_query_type}
use libiphone_debian.Lockdown.Handshake.{
  typed, pair, validate, introduced, validated_again, paired_if_unknown, trusted, left,
  session_if_trusted, handed_out, established, greeted, connected,
  lockdownd_client_new_with_handshake, is_invalid_host_id,
}

is_success→eq : (e : LockdownError) → is_success e ≡ true → e ≡ LockdownError.success
is_success→eq LockdownError.success h = refl
is_success→eq _ h = cc

-- A result that is SUCCESS and is not.
contradiction :
    {B : Type 0} (error : B → LockdownError) (x y : B)
    → is_success (error x) ≡ false
    → done x ≡ done y
    → error y ≡ LockdownError.success
    → ⊥
contradiction error x y failed same ok =
    let no : is_success (error y) ≡ false =
      IfDone-done (λ z. is_success (error z) ≡ false) (done x) y same failed in
    let yes_it_is : is_success (error y) ≡ true = ap is_success ok in cc

abbrev client_or : LockdownClient → Option LockdownClient → LockdownClient
client_or c none = c
client_or c (some c') = c'

module _ {P W : Type 0} (nodes : PlistNodes P) (port : LockdownPort P W) (prefs : Userpref W)
    (crypto : PairCrypto) where
  -- The client is the one that lockdownd_start_session left with SUCCESS, and the call before it was a
  -- lockdownd_validate_pair of the same client, with SUCCESS too.
  pub record IsTrusted (c : LockdownClient) (w : W) : Type 0 where
    pub before : LockdownClient
    pub host_id : Option CString
    pub w1 : W
    pub w2 : W
    pub session : Started
    pub validated : validate nodes port prefs crypto before w1 ≡ done (LockdownError.success, w2)
    pub started :
        lockdownd_start_session nodes port (some before) host_id false w2 ≡ done (session, w)
    pub result : session.result ≡ LockdownError.success
    pub kept : session.client ≡ c

  -- The validation behind a second pairing.
  again_validated :
      (c : LockdownClient) (x : LockdownError × W) (w' : W)
      → validated_again nodes port prefs crypto c x ≡ done (LockdownError.success, w')
      → (u : W) × (validate nodes port prefs crypto c u ≡ done (LockdownError.success, w'))
  again_validated c (e, w) w' h = elim (if_cases (is_success e) _ _ _ h) [
    | inl (paired, q) ↦ (w, q)
    | inr (failed, q) ↦ absurd (
        contradiction {B = LockdownError × W} (λ z. z.0) (e, w) (LockdownError.success, w') failed q
          refl)
  ]

  unknown_validated :
      (c : LockdownClient) (u : W) (x : LockdownError × W) (w' : W)
      → validate nodes port prefs crypto c u ≡ done x
      → paired_if_unknown nodes port prefs crypto c x ≡ done (LockdownError.success, w')
      → (u : W) × (validate nodes port prefs crypto c u ≡ done (LockdownError.success, w'))
  unknown_validated c u (e, w) w' v h = elim (if_cases (is_invalid_host_id e) _ _ _ h) [
    | inl (unknown, q) ↦
        let (y, paired, r) = bind_done (pair nodes port prefs crypto c w) _ _ q in
        again_validated c y w' r
    | inr (known, q) ↦ (u, v ∙ q)
  ]

  trusted_validated :
      (c : LockdownClient) (w w' : W)
      → trusted nodes port prefs crypto c w ≡ done (LockdownError.success, w')
      → (u : W) × (validate nodes port prefs crypto c u ≡ done (LockdownError.success, w'))
  unfolding trusted
  trusted_validated c w w' h =
      let (x, v, k) = bind_done (validate nodes port prefs crypto c w) _ _ h in
      unknown_validated c w x w' v k

  -- What the start of a session leaves, if it is SUCCESS, comes from both calls.
  session_trusted :
      (c c' : LockdownClient) (host_id : Option CString) (u : W) (x : LockdownError × W) (w' : W)
      → trusted nodes port prefs crypto c u ≡ done x
      → session_if_trusted nodes port prefs crypto c host_id x
        ≡ done (LockdownError.success, c', w')
      → IsTrusted c' w'
  session_trusted c c' host_id u (e, w) w' t h = elim (if_cases (is_success e) _ _ _ h) [
    | inl (ok, q) ↦
        let ((s, w3), started, r) =
          bind_done (lockdownd_start_session nodes port (some c) host_id false w) _ _ q in
        let same =
          done_injective (left nodes port prefs crypto (s, w3)) (LockdownError.success, c', w') r in
        let (v, validated) =
          trusted_validated c u w (t ∙ ap (λ e'. done (e', w)) (is_success→eq e ok)) in
        record {
          before = c;
          host_id = host_id;
          w1 = v;
          w2 = w;
          session = s;
          validated = validated;
          started = started ∙ ap (λ v. done (s, v)) (ap (λ y. y.2) same);
          result = ap (λ y. y.0) same;
          kept = ap (λ y. y.1) same;
        }
    | inr (failed, q) ↦ absurd (
        contradiction {B = LockdownError × LockdownClient × W} (λ z. z.0) (e, c, w)
          (LockdownError.success, c', w') failed q refl)
  ]

  handed_out-success :
      (c : LockdownClient) (x : LockdownError × LockdownClient × W) (w' : W)
      → handed_out nodes port prefs crypto x ≡ done (LockdownError.success, some c, w')
      → x ≡ (LockdownError.success, c, w')
  handed_out-success c (e, c0, w) w' h = elim (if_cases (is_success e) _ _ _ h) [
    | inl (ok, q) ↦
        let same = done_injective (e, some c0, w) (LockdownError.success, some c, w') q in
        ap (λ y. (y.0, client_or c0 y.1, y.2)) same
    | inr (failed, q) ↦
        let (y, freed, r) = bind_done (lockdownd_client_free nodes port (some c0) w) _ _ q in
        absurd (
          contradiction {B = LockdownError × Option LockdownClient × W} (λ z. z.0) (e, none, y.1)
            (LockdownError.success, some c, w') failed r refl)
  ]

  established-IsTrusted :
      (c c' : LockdownClient) (known : Bool) (x : Option CString × W) (w' : W)
      → established nodes port prefs crypto c known x ≡ done (LockdownError.success, some c', w')
      → IsTrusted c' w'
  established-IsTrusted c c' known (host_id, w) w' h =
      let (w1, first, h1) =
        bind_done (introduced nodes port prefs crypto c (known && is_some host_id) w) _ _ h in
      let (x, t, h2) = bind_done (trusted nodes port prefs crypto c w1) _ _ h1 in
      let (y, s, h3) = bind_done (session_if_trusted nodes port prefs crypto c host_id x) _ _ h2 in
      session_trusted c c' host_id w1 x w' t (s ∙ ap done (handed_out-success c' y w' h3))

  greeted-IsTrusted :
      (device : Option Device) (c c' : LockdownClient) (w w' : W)
      → greeted nodes port prefs crypto device c w ≡ done (LockdownError.success, some c', w')
      → IsTrusted c' w'
  greeted-IsTrusted device c c' w w' h =
      let (w1, q, k) =
        bind_done (lockdownd_query_type nodes port (some c) w >>= typed nodes port prefs crypto) _ _
          h in
      let (e, uuid) = idevice_get_uuid device true in
      established-IsTrusted (record c { uuid = uuid }) c' (succeeded e) (prefs.get_host_id w1) w' k

  connected-IsTrusted :
      (device : Option Device) (x : LockdownError × Option LockdownClient × W) (c' : LockdownClient)
      (w' : W)
      → connected nodes port prefs crypto device x ≡ done (LockdownError.success, some c', w')
      → IsTrusted c' w'
  connected-IsTrusted device (e, none, w) c' w' h =
      let same = done_injective (e, none, w) (LockdownError.success, some c', w') h in
      let nothing : none ≡ some c' = ap (λ y. y.1) same in cc
  connected-IsTrusted device (e, some c, w) c' w' h = greeted-IsTrusted device c c' w w' h

  -- If lockdownd_client_new_with_handshake returns SUCCESS with a client, then the client is the one
  -- that lockdownd_start_session left, with SUCCESS, of a client which lockdownd_validate_pair had
  -- found to be paired, with SUCCESS, in the call before that.
  pub handshake_trusts :
      (device : Option Device) (wanted : Bool) (label : Option CString) (c : LockdownClient)
      (w w' : W)
      → lockdownd_client_new_with_handshake nodes port prefs crypto device wanted label w
        ≡ done (LockdownError.success, some c, w')
      → IsTrusted c w'
  unfolding lockdownd_client_new_with_handshake
  handshake_trusts device true label c w w' h =
      connected-IsTrusted device (lockdownd_client_new nodes port device true label w) c w' h
  handshake_trusts device false label c w w' h =
      connected-IsTrusted device (LockdownError.invalid_arg, none, w) c w' h
