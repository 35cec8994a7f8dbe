-- ===== src/MobileSync/Transfer.antt =====
-- src/mobilesync.c: the transfer of plists, and the type of a response.
use libiphone_debian.Common.{none, some, List, Option, if◌then◌else◌, ℕ, [], ◌∷◌, zero, suc}
use libiphone_debian.Common.CString.{CString, string_eq}
use libiphone_debian.Common.Outcome.{Outcome, done, ◌>>=◌}
use libiphone_debian.Plist.{PlistNodes, items, string_value}
use libiphone_debian.DeviceLink.{DeviceLinkError, PlistPort}
use libiphone_debian.DeviceLink.Service.{device_link_service_receive, device_link_service_send}
use libiphone_debian.MobileSync.{MobilesyncError, MobilesyncClient, mobilesync_error, is_success}
use libiphone_debian.MobileSync.Strings.{cancel_session_text}

-- plist_array_get_item(array, n), NULL outside of the array
abbrev pub item {ℓ} : {A : Type ℓ} → ℕ → List A → Option A
item n [] = none
item zero (p ∷ ps) = some p
item (suc n) (p ∷ ps) = item n ps

-- A response whose type is read: a cancelled session, or what the type says.
abbrev pub unless_cancelled : (CString → MobilesyncError) → CString → MobilesyncError
unless_cancelled decide response_type =
    if string_eq response_type cancel_session_text
    then MobilesyncError.cancelled
    else decide response_type

-- A type that is expected, and the error of another.
abbrev pub expect : CString → MobilesyncError → CString → MobilesyncError
expect expected error response_type =
    if string_eq response_type expected then MobilesyncError.success else error

module _ {P W : Type 0} (nodes : PlistNodes P) (port : PlistPort P W) where
  abbrev converted : DeviceLinkError × Option P × W → MobilesyncError × Option P × W
  converted (e, plist, w) = (mobilesync_error e, plist, w)

  -- `plist` is `none` for a NULL pointer; the second result is what *plist holds.
  unfoldable pub mobilesync_receive :
      Option MobilesyncClient → Option (Option P) → W → Outcome (MobilesyncError × Option P × W)
  mobilesync_receive none none w = done (MobilesyncError.invalid_arg, none, w)
  mobilesync_receive none (some before) w = done (MobilesyncError.invalid_arg, before, w)
  mobilesync_receive (some client) plist w =
      device_link_service_receive nodes port client.parent plist w >>= λ x. done (converted x)

  unfoldable pub mobilesync_send : Option MobilesyncClient → Option P → W → MobilesyncError × W
  mobilesync_send (some client) (some plist) w =
      let (e, w') = device_link_service_send nodes port client.parent (some plist) w in
      (mobilesync_error e, w')
  mobilesync_send client plist w = (MobilesyncError.invalid_arg, w)

  -- The nodes of a message; a plist that is NULL has none.
  abbrev pub message_items : Option P → List P
  message_items none = []
  message_items (some msg) = items (nodes.view msg)

  -- The string that the first node of the message is.
  abbrev pub response_type_of : Option P → Option CString
  response_type_of msg = string_value nodes (item 0 (message_items msg))

  -- The decision on the type of a response, NULL being an error.
  abbrev pub typed_response : (CString → MobilesyncError) → Option CString → MobilesyncError
  typed_response decide none = MobilesyncError.plist_error
  typed_response decide (some response_type) = decide response_type

  -- The result of a call, from that of the reception and the message.
  abbrev pub respond : (CString → MobilesyncError) → MobilesyncError → Option P → MobilesyncError
  respond decide e msg = if is_success e then typed_response decide (response_type_of msg) else e

  -- The message is sent, and if that succeeds a response is received.
  unfoldable pub exchange_message :
      MobilesyncClient → P → W → Outcome (MobilesyncError × Option P × W)
  exchange_message client msg w =
      let (e, w') = mobilesync_send (some client) (some msg) w in
      let response = mobilesync_receive (some client) (some none) w' in
      if is_success e then response else done (e, none, w')
