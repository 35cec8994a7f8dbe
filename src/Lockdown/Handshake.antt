-- ===== src/Lockdown/Handshake.antt =====
-- src/lockdown.c: lockdownd_client_new_with_handshake.
pub mod Trust
use libiphone_debian.Common.Outcome.{Fault, Outcome, done, fault, ◌>>=◌, null_deref}
use libiphone_debian.Common.{
  none, some, true, false, Bool, List, Option, if◌then◌else◌, ◌&&◌, is_some, not,
}
use libiphone_debian.Common.CString.{CString}
use libiphone_debian.Idevice.{Device, IdeviceError, succeeded}
use libiphone_debian.Idevice.Devices.{idevice_get_uuid}
use libiphone_debian.Plist.{PlistNodes}
use libiphone_debian.Lockdown.{LockdownError, LockdownClient, LockdownPort, Userpref, is_success}
use libiphone_debian.Lockdown.Session.{lockdownd_client_new, lockdownd_client_free}
use libiphone_debian.Lockdown.Session.Start.{Started, lockdownd_start_session}
use libiphone_debian.Lockdown.Values.{lockdownd_query_type}
use libiphone_debian.Lockdown.Pairing.{PairCrypto}
use libiphone_debian.Lockdown.Pairing.Pair.{lockdownd_pair, lockdownd_validate_pair}

abbrev pub is_invalid_host_id : LockdownError → Bool
is_invalid_host_id LockdownError.invalid_host_id = true
is_invalid_host_id _ = false

module _ {P W : Type 0} (nodes : PlistNodes P) (port : LockdownPort P W) (prefs : Userpref W)
    (crypto : PairCrypto) where
  -- The type of the daemon is compared with the one that is expected, which reads it, and only that.
  abbrev pub typed : LockdownError × Option CString × W → Outcome W
  typed (e, none, w) = if is_success e then fault Fault.null_deref else done w
  typed (e, some type, w) = done w

  abbrev pub pair : LockdownClient → W → Outcome (LockdownError × W)
  pair client w = lockdownd_pair nodes port prefs crypto (some client) none w

  abbrev pub validate : LockdownClient → W → Outcome (LockdownError × W)
  validate client w = lockdownd_validate_pair nodes port prefs crypto (some client) none w

  -- The first pairing, for a device whose key is not known; its result is not looked at.
  abbrev pub introduced : LockdownClient → Bool → W → Outcome W
  introduced client ready w =
      let paired = pair client w >>= λ x. done x.1 in
      if ready && not (prefs.has_device_public_key client.uuid w) then paired else done w

  abbrev pub validated_again : LockdownClient → LockdownError × W → Outcome (LockdownError × W)
  validated_again client (e, w) =
      let again = validate client w in if is_success e then again else done (e, w)

  -- The validation, with one more pairing where the device does not know the host.
  abbrev pub paired_if_unknown : LockdownClient → LockdownError × W → Outcome (LockdownError × W)
  paired_if_unknown client (e, w) =
      let repaired = pair client w >>= λ x. validated_again client x in
      if is_invalid_host_id e then repaired else done (e, w)

  unfoldable pub trusted : LockdownClient → W → Outcome (LockdownError × W)
  trusted client w = validate client w >>= λ x. paired_if_unknown client x

  abbrev pub left : Started × W → LockdownError × LockdownClient × W
  left (s, w) = (s.result, s.client, w)

  abbrev pub session_if_trusted :
      LockdownClient
      → Option CString
      → LockdownError × W
      → Outcome (LockdownError × LockdownClient × W)
  session_if_trusted client host_id (e, w) =
      let started =
        lockdownd_start_session nodes port (some client) host_id false w >>= λ x. done (left x) in
      if is_success e then started else done (e, client, w)

  -- The client is handed out with success, and freed without.
  abbrev pub handed_out :
      LockdownError × LockdownClient × W → Outcome (LockdownError × Option LockdownClient × W)
  handed_out (e, client, w) =
      let freed = lockdownd_client_free nodes port (some client) w >>= λ x. done (e, none, x.1) in
      if is_success e then done (e, some client, w) else freed

  -- The pairing and the session of a client whose uuid is set.
  abbrev pub established :
      LockdownClient
      → Bool
      → Option CString × W
      → Outcome (LockdownError × Option LockdownClient × W)
  established client uuid_known (host_id, w) = do
    w1 ← introduced client (uuid_known && is_some host_id) w
    x ← trusted client w1
    y ← session_if_trusted client host_id x
    handed_out y

  abbrev pub greeted :
      Option Device → LockdownClient → W → Outcome (LockdownError × Option LockdownClient × W)
  greeted device client w = do
    w1 ← lockdownd_query_type nodes port (some client) w >>= typed
    let (e, uuid) = idevice_get_uuid device true
    established (record client { uuid = uuid }) (succeeded e) (prefs.get_host_id w1)

  abbrev pub connected :
      Option Device
      → LockdownError × Option LockdownClient × W
      → Outcome (LockdownError × Option LockdownClient × W)
  connected device (e, none, w) = done (e, none, w)
  connected device (e, some client, w) = greeted device client w

  -- `wanted` says whether `client` is set; the second result is what is stored in *client.
  unfoldable pub lockdownd_client_new_with_handshake :
      Option Device
      → Bool
      → Option CString
      → W
      → Outcome (LockdownError × Option LockdownClient × W)
  lockdownd_client_new_with_handshake device false label w =
      done (LockdownError.invalid_arg, none, w)
  lockdownd_client_new_with_handshake device true label w =
      connected device (lockdownd_client_new nodes port device true label w)
