-- ===== src/Ports.antt =====
-- src/property_list_service.c: its functions as the ports of src/lockdown.c and src/installation_proxy.c.
use libiphone_debian.Common.{none, some, Bool, List, ℕ}
use libiphone_debian.Channel.{Channel}
use libiphone_debian.Idevice.{Connection, Gnutls, Usbmuxd}
use libiphone_debian.PropertyList.{Libplist}
use libiphone_debian.PropertyList.Client.{
  property_list_service_client_new, property_list_service_client_free,
  property_list_service_enable_ssl, property_list_service_disable_ssl,
}
use libiphone_debian.PropertyList.Send.{property_list_service_send_xml_plist}
use libiphone_debian.PropertyList.Receive.{
  property_list_service_receive_plist, property_list_service_receive_plist_with_timeout,
}
use libiphone_debian.Lockdown.{LockdownPort}
use libiphone_debian.InstProxy.{InstproxyPort}

module _ {P W : Type 0} (mux : Usbmuxd W) (tls : Gnutls W) (lib : Libplist P)
    (ch : Connection → Channel W) (fresh : ℕ → List ℕ) where
  pub lockdown_port : LockdownPort P W
  lockdown_port = record {
    client_new =
        λ device port w. property_list_service_client_new mux tls device port (some none) w;
    client_free = λ client w. property_list_service_client_free mux tls client w;
    send_xml = λ client plist w. property_list_service_send_xml_plist lib ch client plist w;
    receive = λ client plist w. property_list_service_receive_plist lib ch fresh client plist w;
    enable_ssl = λ client w. property_list_service_enable_ssl mux tls client w;
    disable_ssl = λ client w. property_list_service_disable_ssl mux tls client w;
  }

  -- The threads are those of glib.
  pub instproxy_port : (W → Bool × W) → InstproxyPort P W
  instproxy_port thread_create = record {
    client_new =
        λ device port w. property_list_service_client_new mux tls device port (some none) w;
    client_free = λ client w. property_list_service_client_free mux tls client w;
    send_xml = λ client plist w. property_list_service_send_xml_plist lib ch client plist w;
    receive = λ client w. property_list_service_receive_plist lib ch fresh client (some none) w;
    receive_with_timeout = λ client timeout w.
        property_list_service_receive_plist_with_timeout lib ch fresh client (some none) timeout w;
    thread_create = thread_create;
  }
