-- ===== src/Idevice/Devices.antt =====
-- src/idevice.c: device events, the list of devices, and the handle of a device.
use libiphone_debian.Common.{
  refl, suc, ap, ◌∙◌, arith, [], length, none, some, All, Bool, List, Option, if◌then◌else◌, ℕ, ◌%◌,
  ◌++◌, ◌<◌, ◌==◌, ◌^◌, ◌∷◌, ◌≡◌, ◌≢◌,
}
use libiphone_debian.Common.Outcome.{done, fault, Outcome, over_read, ◌>>=◌}
use libiphone_debian.Idevice.{ConnectionType, Device, DeviceInfo, IdeviceError, Usbmuxd}
use libiphone_debian.Common.CString.{CString}

pub record IdeviceEvent : Type 0 where
  pub event : ℕ
  pub uuid : CString
  pub conn_type : ConnectionType

-- usbmux_event_cb: what an event of usbmuxd does, with the callback that is registered, if any.
pub usbmux_event_cb : {W : Type 0} → Option (IdeviceEvent → W → W) → ℕ → DeviceInfo → W → W
usbmux_event_cb none event device w = w
usbmux_event_cb (some callback) event device w =
    callback (record { event = event; uuid = device.uuid; conn_type = ConnectionType.usbmuxd }) w

-- The loop of idevice_get_device_list, up to the entry with no handle.
pub listed_uuids : List DeviceInfo → Outcome (List CString)
listed_uuids [] = fault over_read
listed_uuids (info ∷ infos) =
    let rest = listed_uuids infos in
    if info.handle == 0 then done [] else rest >>= λ uuids. done (info.uuid ∷ uuids)

-- The pointers that idevice_device_list_free hands to free, from the array; 0 is NULL.
pub freed : List ℕ → Outcome (List ℕ)
freed [] = fault over_read
freed (p ∷ []) = if p == 0 then done [] else fault over_read
freed (p ∷ (q ∷ ps)) =
    let rest = freed (q ∷ ps) in if p == 0 then done [] else rest >>= λ qs. done (q ∷ qs)

pub idevice_device_list_free : Option (List ℕ) → Outcome (IdeviceError × List ℕ)
idevice_device_list_free none = done (IdeviceError.success, [])
idevice_device_list_free (some devices) = freed devices >>= λ ps. done (IdeviceError.success, ps)

pub idevice_free : Option Device → IdeviceError
idevice_free none = IdeviceError.invalid_arg
idevice_free (some device) = IdeviceError.success

pub idevice_get_handle : Option Device → IdeviceError × Option ℕ
idevice_get_handle none = (IdeviceError.invalid_arg, none)
idevice_get_handle (some device) = elim device.conn_type [
  | ConnectionType.usbmuxd ↦ (IdeviceError.success, some (device.conn_data % 2 ^ 32))
  | ConnectionType.unknown ↦ (IdeviceError.unknown_error, none)
]

-- `wanted` says whether the pointer to the result is set.
unfoldable pub idevice_get_uuid : Option Device → Bool → IdeviceError × Option CString
idevice_get_uuid (some device) Bool.true = (IdeviceError.success, some device.uuid)
idevice_get_uuid device wanted = (IdeviceError.invalid_arg, none)

abbrev pub uuids : List DeviceInfo → List CString
uuids [] = []
uuids (info ∷ infos) = info.uuid ∷ uuids infos

length-uuids : (infos : List DeviceInfo) → length (uuids infos) ≡ length infos
length-uuids [] = refl
length-uuids (info ∷ infos) = ap suc (length-uuids infos)

listed_uuids-terminated :
    (devices rest : List DeviceInfo) (terminator : DeviceInfo)
    → All (λ info. 0 < info.handle) devices
    → terminator.handle ≡ 0
    → listed_uuids (devices ++ (terminator ∷ rest)) ≡ done (uuids devices)
unfolding listed_uuids
listed_uuids-terminated [] rest terminator live e = ground arith
listed_uuids-terminated (info ∷ infos) rest terminator live e =
    ground (arith, listed_uuids-terminated infos rest terminator live.1 e)

module _ {W : Type 0} (mux : Usbmuxd W) where
  -- The callback is kept only where usbmuxd takes the subscription.
  pub idevice_event_subscribe : {C : Type 0} → C → W → IdeviceError × Option C × W
  idevice_event_subscribe callback w =
      let (ok, w') = mux.subscribe w in
      if ok
      then (IdeviceError.success, some callback, w')
      else (IdeviceError.unknown_error, none, w')

  pub idevice_event_unsubscribe : {C : Type 0} → W → IdeviceError × Option C × W
  idevice_event_unsubscribe w =
      let (ok, w') = mux.unsubscribe w in
      (if ok then IdeviceError.success else IdeviceError.unknown_error, none, w')

  abbrev listed :
      Option (List DeviceInfo) × W → Outcome (IdeviceError × Option (List CString) × ℕ × W)
  listed (none, w) = done (IdeviceError.no_device, none, 0, w)
  listed (some infos, w) = do
    uuids ← listed_uuids infos
    done (IdeviceError.success, some uuids, length uuids, w)

  -- The list and the count; the list is `none` for NULL.
  pub idevice_get_device_list : W → Outcome (IdeviceError × Option (List CString) × ℕ × W)
  idevice_get_device_list w = listed (mux.get_device_list w)

  abbrev found : Option DeviceInfo × W → IdeviceError × Option Device × W
  found (none, w) = (IdeviceError.no_device, none, w)
  found (some info, w) = (
    IdeviceError.success,
    some (record { uuid = info.uuid; conn_type = ConnectionType.usbmuxd; conn_data = info.handle }),
    w,
  )

  pub idevice_new : Option CString → W → IdeviceError × Option Device × W
  idevice_new uuid w = found (mux.get_device_by_uuid uuid w)

  -- Where usbmuxd lists devices and then the entry with no handle, the list is that of their uuids, in
  -- order, with their number, and what stands behind that entry is not read.
  pub get_device_list-uuids :
      (devices rest : List DeviceInfo) (terminator : DeviceInfo) (w w' : W)
      → All (λ info. 0 < info.handle) devices
      → terminator.handle ≡ 0
      → mux.get_device_list w ≡ (some (devices ++ (terminator ∷ rest)), w')
      → idevice_get_device_list w
        ≡ done (IdeviceError.success, some (uuids devices), length devices, w')
  unfolding idevice_get_device_list
  get_device_list-uuids devices rest terminator w w' live zero_handle e =
      let l = listed_uuids-terminated devices rest terminator live zero_handle in
      ap listed e
      ∙ ap (λ m. m >>= λ us. done (IdeviceError.success, some us, length us, w')) l
      ∙ ap (λ n. done (IdeviceError.success, some (uuids devices), n, w')) (length-uuids devices)

-- The bug: for a list of one string or more, idevice_device_list_free never frees the first, which
-- leaks, and calls free on the NULL behind the last.
pub device_list_free-leaks :
    (p : ℕ) (ps : List ℕ)
    → All (λ q. q ≢ 0) (p ∷ ps)
    → idevice_device_list_free (some ((p ∷ ps) ++ (0 ∷ [])))
      ≡ done (IdeviceError.success, ps ++ (0 ∷ []))
unfolding idevice_device_list_free freed
device_list_free-leaks p [] h = ground arith
device_list_free-leaks p (q ∷ ps) h = ground (arith, device_list_free-leaks q ps h.1)
