-- ===== src/DeviceLink/Exchange.antt =====
-- src/device_link_service.c: device_link_service_version_exchange.
pub mod Versions
use libiphone_debian.Common.{
  not, none, [], ltb, some, List, Option, if◌then◌else◌, ℕ, ◌&&◌, ◌==◌, ◌∷◌,
}
use libiphone_debian.Plist.{PlistNodes, items, uint_of}
use libiphone_debian.DeviceLink.Messages.{
  device_link_service_get_message, device_ready, is_message, version_exchange_message, versions_ok,
}
use libiphone_debian.Common.Outcome.{◌>>=◌, done, Outcome}
use libiphone_debian.DeviceLink.{
  DeviceLinkClient, DeviceLinkError, PlistPort, bad_version, went_well,
}
use libiphone_debian.PropertyList.{invalid_arg, mux_error, plist_error}

module _ {P W : Type 0} (nodes : PlistNodes P) (port : PlistPort P W) where
  -- The last step: DLMessageDeviceReady.
  pub await_ready : DeviceLinkClient → W → Outcome (DeviceLinkError × W)
  await_ready client w = do
    (e, p, w') ← port.receive client.parent (some none) w
    let msg = device_link_service_get_message nodes p
    if not (went_well e)
        then done (DeviceLinkError.mux_error, w')
        else if is_message msg device_ready
        then done (DeviceLinkError.success, w')
        else done (DeviceLinkError.plist_error, w')

  abbrev pub version_reply : ℕ → P
  version_reply major = nodes.new_array (
      nodes.new_string version_exchange_message
      ∷ (nodes.new_string versions_ok ∷ (nodes.new_uint major ∷ [])))

  -- DLVersionsOk and what follows.
  pub accept : DeviceLinkClient → ℕ → W → Outcome (DeviceLinkError × W)
  accept client major w =
      let (e, w') = port.send client.parent (some (version_reply major)) w in
      let ready = await_ready client w' in
      if went_well e then ready else done (DeviceLinkError.mux_error, w')

  -- The version that the device gave against the one that is expected.
  pub check_version : DeviceLinkClient → ℕ → ℕ → List P → W → Outcome (DeviceLinkError × W)
  check_version client major minor (cmd ∷ (maj ∷ (min ∷ more))) w =
      let vmajor = uint_of (nodes.view maj) in
      let vminor = uint_of (nodes.view min) in
      let accepted = accept client major w in
      if ltb major vmajor
      then done (DeviceLinkError.bad_version, w)
      else if vmajor == major && ltb minor vminor
      then done (DeviceLinkError.bad_version, w)
      else accepted
  check_version client major minor _ w = done (DeviceLinkError.plist_error, w)

  -- What follows the first message; a plist that is NULL holds no message.
  pub greeted : DeviceLinkClient → ℕ → ℕ → Option P → W → Outcome (DeviceLinkError × W)
  greeted client major minor none w = done (DeviceLinkError.plist_error, w)
  greeted client major minor (some p) w =
      let checked = check_version client major minor (items (nodes.view p)) w in
      if is_message (device_link_service_get_message nodes (some p)) version_exchange_message
      then checked
      else done (DeviceLinkError.plist_error, w)

  pub device_link_service_version_exchange :
      Option DeviceLinkClient → ℕ → ℕ → W → Outcome (DeviceLinkError × W)
  device_link_service_version_exchange none major minor w = done (DeviceLinkError.invalid_arg, w)
  device_link_service_version_exchange (some client) major minor w = do
    (e, p, w') ← port.receive client.parent (some none) w
    let answer = greeted client major minor p w'
    if went_well e then answer else done (DeviceLinkError.mux_error, w')
