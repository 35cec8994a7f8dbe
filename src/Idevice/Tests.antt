-- ===== src/Idevice/Tests.antt =====
-- src/idevice.c: the examples, over a scripted usbmuxd and a gnutls that counts its objects.
use libiphone_debian.Idevice.Transfer.Stream.{IsLossless}
use libiphone_debian.Common.{
  suc, List, ltb, length, [], arith, none, refl, some, true, ◌-◌, ℕ, ◌++◌, ◌+◌, ◌∷◌, ◌≡◌,
}
use libiphone_debian.Idevice.{
  Device, DeviceInfo, Connection, ConnectionType, Gnutls, IdeviceError, Kind, Usbmuxd,
}
use libiphone_debian.Common.Outcome.{done, Returns, running}
use libiphone_debian.Idevice.Devices.{
  idevice_device_list_free, device_list_free-leaks, get_device_list-uuids, idevice_get_device_list,
}
use libiphone_debian.Idevice.Ssl.{
  idevice_connection_disable_ssl, idevice_connection_enable_ssl, internal_ssl_read,
}
use libiphone_debian.Idevice.Ssl.Balance.{IsCounted, disable_ssl-enable_ssl, one_if}
use libiphone_debian.Channel.Script.{Script, next_chunk, next_chunk-le, next_chunk_keeps}
use libiphone_debian.Idevice.Ssl.Reading.{
  Delivers, IsWhole, internal_ssl_read-IsWhole, internal_ssl_read_stalls,
}

abbrev two_devices : List DeviceInfo
two_devices = record { handle = 3; uuid = b'a' ∷ [] } ∷ record { handle = 5; uuid = b'b' ∷ [] } ∷ []

abbrev end_of_list : DeviceInfo
end_of_list = record { handle = 0; uuid = [] }

abbrev pub script_mux : Usbmuxd Script
script_mux = record {
  subscribe = λ w. (true, w);
  unsubscribe = λ w. (true, w);
  get_device_list = λ w. (some (two_devices ++ (end_of_list ∷ [])), w);
  get_device_by_uuid = λ uuid w. (none, w);
  connect = λ handle port w. (some handle, w);
  disconnect = λ socket w. record w { outgoing = w.outgoing ++ (socket ∷ []) };
  send = λ socket d w. (true, length d, record w { outgoing = w.outgoing ++ d });
  recv = λ socket n w.
      let (got, w') = next_chunk n w.incoming w.outgoing in (ltb 0 (length got), got, w');
  recv_timeout =
      λ socket n timeout w. let (got, w') = next_chunk n w.incoming w.outgoing in (true, got, w');
  recv_le = λ socket n w. next_chunk-le n w.incoming w.outgoing;
  recv_timeout_le = λ socket n timeout w. next_chunk-le n w.incoming w.outgoing;
}

-- A usbmuxd whose every receive succeeds and brings nothing.
abbrev idle_mux : Usbmuxd Script
idle_mux = record script_mux {
  recv = λ socket n w. (true, [], w);
  recv_le = λ socket n w. omega arith;
}

-- The handle that was handed out last, and the live objects.
record Heap : Type 0 where
  pub last : ℕ
  pub objects : Kind → ℕ → ℕ

abbrev counting_tls : Gnutls Heap
counting_tls = record {
  allocate = λ k w. (
    suc w.last,
    record { last = suc w.last; objects = λ j i. one_if k (suc w.last) j i + w.objects j i },
  );
  release = λ k h w. record w { objects = λ j i. w.objects j i - one_if k h j i };
  setup = λ s w. w;
  handshake = λ h w. (true, w);
  record_send = λ h d w. (length d, w);
  record_recv = λ h n w. ([], w);
  record_recv_le = λ h n w. omega arith;
}

-- Records pass through unchanged.
abbrev pub idle_tls : Gnutls Script
idle_tls = record {
  allocate = λ k w. (1, w);
  release = λ k h w. w;
  setup = λ s w. w;
  handshake = λ h w. (true, w);
  record_send = λ h d w. (length d, record w { outgoing = w.outgoing ++ d });
  record_recv = λ h n w. next_chunk n w.incoming w.outgoing;
  record_recv_le = λ h n w. next_chunk-le n w.incoming w.outgoing;
}

counting_tls-IsCounted : IsCounted counting_tls (λ w. w.objects)
counting_tls-IsCounted = record {
  allocate_adds = λ k j i w. refl;
  allocate_set = λ k w e. absurd (omega arith);
  release_takes = λ k j h i w set there. refl;
  setup_keeps = λ s j i w. refl;
  handshake_keeps = λ h j i w. refl;
}

abbrev pub plain : Connection
plain = record { type = ConnectionType.usbmuxd; socket = 4; ssl_data = none }

abbrev no_objects : Heap
no_objects = record { last = 0; objects = λ j i. 0 }

disable_ssl-enable_ssl_example :
    let on = idevice_connection_enable_ssl counting_tls (some plain) no_objects in
    let off = idevice_connection_disable_ssl counting_tls on.1 on.2 in
    (off.0 ≡ IdeviceError.success) × (off.1 ≡ some plain) × (off.2.objects Kind.crt 4 ≡ 0)
disable_ssl-enable_ssl_example =
    disable_ssl-enable_ssl counting_tls counting_tls-IsCounted plain no_objects Kind.crt 4 refl

abbrev pub two_pieces : Script
two_pieces = record { incoming = (1 ∷ 2 ∷ []) ∷ (3 ∷ 4 ∷ []) ∷ []; outgoing = [] }

script_mux-Delivers : Delivers script_mux
script_mux-Delivers socket n w pos ok = ground arith

internal_ssl_read-IsWhole_example :
    Returns (λ x. IsWhole 3 x.0) (internal_ssl_read script_mux 4 plain 3 two_pieces)
internal_ssl_read-IsWhole_example =
    internal_ssl_read-IsWhole script_mux 4 plain 3 two_pieces script_mux-Delivers (omega arith)

internal_ssl_read_stalls_example : internal_ssl_read idle_mux 100 plain 5 two_pieces ≡ running
internal_ssl_read_stalls_example =
    internal_ssl_read_stalls idle_mux 100 plain 5 two_pieces refl (omega arith)
      (λ socket m w. (refl, refl))

script_mux-IsLossless : IsLossless script_mux (λ w. w.outgoing)
script_mux-IsLossless = record {
  sends_all = λ s d w. refl;
  send_logs = λ s d w. refl;
  recv_keeps = λ s n w. next_chunk_keeps n w.incoming w.outgoing;
}

get_device_list-uuids_example :
    idevice_get_device_list script_mux two_pieces
    ≡ done (IdeviceError.success, some ((b'a' ∷ []) ∷ (b'b' ∷ []) ∷ []), 2, two_pieces)
get_device_list-uuids_example =
    get_device_list-uuids script_mux two_devices [] end_of_list two_pieces two_pieces
      (omega arith, (omega arith, tt)) refl refl

device_list_free-leaks_example :
    idevice_device_list_free (some (7 ∷ 8 ∷ 0 ∷ [])) ≡ done (IdeviceError.success, 8 ∷ 0 ∷ [])
device_list_free-leaks_example =
    device_list_free-leaks 7 (8 ∷ []) (λ e. omega arith, (λ e. omega arith, tt))

abbrev phone : Device
phone = record { uuid = b'a' ∷ []; conn_type = ConnectionType.usbmuxd; conn_data = 3 }
