-- ===== src/DeviceLink/Exchange/Versions.antt =====
-- src/device_link_service.c: the versions in device_link_service_version_exchange.
use libiphone_debian.DeviceLink.{DeviceLinkClient, DeviceLinkError, PlistPort}
use libiphone_debian.Plist.{Node, PlistNodes}
use libiphone_debian.Common.Outcome.{done}
use libiphone_debian.Common.{refl, none, ◌∙◌, arith, some, List, ℕ, ◌<◌, ◌∷◌, ◌≡◌, ◌≤◌, ◌⊎◌}
use libiphone_debian.DeviceLink.Exchange.{
  await_ready, device_link_service_version_exchange, version_reply, accept, greeted, check_version,
}
use libiphone_debian.PropertyList.{PlistServiceError}
use libiphone_debian.DeviceLink.Messages.{device_ready, get_message_array, version_exchange_message}
use libiphone_debian.Common.CString.{CString, string_eq}

-- The version (a, b) is at most (c, d), in the lexicographic order.
abbrev pub IsAtMost : ℕ → ℕ → ℕ → ℕ → Type 0
IsAtMost a b c d = (a < c) ⊎ ((a ≡ c) × (b ≤ d))

-- The plist is a message of the given name with the given nodes behind it.
pub record IsNamed {P : Type 0} (nodes : PlistNodes P) (p : P) (name : CString) (rest : List P)
    : Type 0 where
  pub cmd : P
  pub view_message : nodes.view p ≡ Node.array (cmd ∷ rest)
  pub view_name : nodes.view cmd ≡ Node.string name

module _ {P W : Type 0} (nodes : PlistNodes P) (port : PlistPort P W) where
  greeted_decides :
      (client : DeviceLinkClient) (major minor vmajor vminor : ℕ) (p maj min : P) (more : List P)
      (w : W)
      → IsNamed nodes p version_exchange_message (maj ∷ (min ∷ more))
      → nodes.view maj ≡ Node.uint vmajor
      → nodes.view min ≡ Node.uint vminor
      → (IsAtMost vmajor vminor major minor
          → greeted nodes port client major minor (some p) w ≡ accept nodes port client major w)
        × (¬ (IsAtMost vmajor vminor major minor)
            → greeted nodes port client major minor (some p) w
              ≡ done (DeviceLinkError.bad_version, w))
  unfolding greeted check_version string_eq
  greeted_decides client major minor vmajor vminor p maj min more w named emaj emin =
      let m = get_message_array nodes p named.cmd _ _ named.view_message named.view_name in
      rw (m, named.view_message, emaj, emin) ((λ h. ground arith), (λ h. ground arith))

  accept_ready :
      (client : DeviceLinkClient) (major : ℕ) (q : P) (rest : List P) (w w1 w2 : W)
      → port.send client.parent (some (version_reply nodes port major)) w
        ≡ (PlistServiceError.success, w1)
      → port.receive client.parent (some none) w1 ≡ done (PlistServiceError.success, some q, w2)
      → IsNamed nodes q device_ready rest
      → accept nodes port client major w ≡ done (DeviceLinkError.success, w2)
  unfolding accept await_ready string_eq
  accept_ready client major q rest w w1 w2 s r named =
      let m =
        get_message_array nodes q named.cmd rest device_ready named.view_message named.view_name in
      rw (s, r, m) refl

  -- If the device greets with a version that is at most the expected one, major number first, the
  -- answer to it can be sent, and the device then says that it is ready, the exchange succeeds.
  pub version_exchange_accepts :
      (client : DeviceLinkClient) (major minor vmajor vminor : ℕ) (p maj min q : P)
      (more rest : List P) (w w1 w2 w3 : W)
      → port.receive client.parent (some none) w ≡ done (PlistServiceError.success, some p, w1)
      → IsNamed nodes p version_exchange_message (maj ∷ (min ∷ more))
      → nodes.view maj ≡ Node.uint vmajor
      → nodes.view min ≡ Node.uint vminor
      → IsAtMost vmajor vminor major minor
      → port.send client.parent (some (version_reply nodes port major)) w1
        ≡ (PlistServiceError.success, w2)
      → port.receive client.parent (some none) w2 ≡ done (PlistServiceError.success, some q, w3)
      → IsNamed nodes q device_ready rest
      → device_link_service_version_exchange nodes port (some client) major minor w
        ≡ done (DeviceLinkError.success, w3)
  unfolding device_link_service_version_exchange
  version_exchange_accepts client major minor vmajor vminor p maj min q more rest w w1 w2 w3 hello
        named emaj emin h s r ready =
      let d = greeted_decides client major minor vmajor vminor p maj min more w1 named emaj emin in
      rw hello (d.0 h ∙ accept_ready client major q rest w1 w2 w3 s r ready)

  -- If the device greets with a version that is greater than the expected one, major number first, the
  -- exchange ends with BAD_VERSION at once, and nothing is sent.
  pub version_exchange_refuses :
      (client : DeviceLinkClient) (major minor vmajor vminor : ℕ) (p maj min : P) (more : List P)
      (w w1 : W)
      → port.receive client.parent (some none) w ≡ done (PlistServiceError.success, some p, w1)
      → IsNamed nodes p version_exchange_message (maj ∷ (min ∷ more))
      → nodes.view maj ≡ Node.uint vmajor
      → nodes.view min ≡ Node.uint vminor
      → ¬ (IsAtMost vmajor vminor major minor)
      → device_link_service_version_exchange nodes port (some client) major minor w
        ≡ done (DeviceLinkError.bad_version, w1)
  unfolding device_link_service_version_exchange
  version_exchange_refuses client major minor vmajor vminor p maj min more w w1 hello named emaj
        emin h =
      let d = greeted_decides client major minor vmajor vminor p maj min more w1 named emaj emin in
      rw hello (d.1 h)
