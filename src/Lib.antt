-- ===== src/Lib.antt =====
-- libimobiledevice: what the library does on its connections to a device.
--
-- The program. A service client (src/afc.c and the other services) talks to a daemon on the device
-- over a connection (src/idevice.c), which usbmuxd opens and gnutls may encrypt. AFC, the file
-- service, has a packet format of its own. The property list services frame a plist with its length
-- (src/property_list_service.c), and the device link services (src/device_link_service.c) exchange
-- arrays of plists over those. Lockdown (src/lockdown.c) pairs with the device, holds the session, and
-- starts the other services; mobilesync (src/mobilesync.c) synchronizes records over the device link
-- service, and mobilebackup (src/mobilebackup.c) requests backups and restores over it; the installation
-- proxy (src/installation_proxy.c) manages applications, house_arrest (src/house_arrest.c) gives AFC an
-- application's directory on its own connection, and file_relay (src/file_relay.c) the archive of a source.
--
-- The files.
-- - Common: names of the standard library, Boolean tests, lists over native numbers; Common.Outcome
--   is what a C function does beside returning (a fault, a deadlock, a loop that still runs),
--   Common.Bytes the integers in both byte orders, Common.CString the strings.
-- - Channel: the interface between services and connections, as the services see it: the counts and
--   the bytes of idevice_connection_send, idevice_connection_receive and its variant with a timeout.
--   Channel.Script is a scripted channel for the examples. Idevice.Transfer.Stream fills the interface.
-- - Afc: src/afc.c and src/afc.h. Packet is the header (AFCPacket) and the client, Transfer the functions
--   afc_dispatch_packet and afc_receive_data, Session the mutex and the exchange of one command for
--   one reply, Strings make_strings_list, Paths and Files the requests on paths and on handles, Read and
--   Write afc_file_read and afc_file_write, Client the life of a client, Calls any sequence of calls.
-- - Idevice: src/idevice.c. Raw is the transfer over usbmuxd, Ssl the callbacks and the switching of SSL,
--   Transfer connections and the transfers over them, Devices events and the list of devices.
-- - PropertyList: src/property_list_service.c, in Client, Send and Receive.
-- - DeviceLink: src/device_link_service.c; Messages are its strings, Service its requests, Exchange the
--   version exchange, Client the life of a client and the port to the property list service.
-- - Plist: the nodes of libplist, as the services take them apart and build them. Plist.Tree are plists
--   for the examples.
-- - Lockdown: src/lockdown.c. Request is the form of requests and answers, Session the life of a client and
--   of its session, Values the preferences, Pairing pair records and certificates, Services the start
--   of services and activation, Classes the data classes, Handshake the whole handshake.
-- - MobileSync: src/mobilesync.c. Transfer and Session are the messages and a session, Life a client, Changes
--   the records that it transfers, Actions what goes with them, Phase the calls of a client and the
--   rules for them.
-- - InstProxy: src/installation_proxy.c. Command sends a command, Operation follows its status, Browse and
--   Options are the lists of applications and the options of a command.
-- - MobileBackup: src/mobilebackup.c. Message sends and receives a dictionary with its type, Requests and
--   Restore are the backup, the restore and their answers.
-- - HouseArrest: src/house_arrest.c, with its AFC client in Mode. FileRelay: src/file_relay.c, with the
--   answer to its request in Answer.
-- - Ports: src/property_list_service.c as the interfaces that Lockdown and InstProxy are written over.
-- A function has the name it has in C; what it does on a client that is there may be a definition of its
-- own, as start_session is for mobilesync_start. The files below those of a component hold its theorems, the
-- files called Tests the examples.
--
-- How it is modelled. State is passed along: the client, and a world `W`, which is whatever lies behind
-- the connection. A pointer is an option, `none` for NULL; a result through a pointer is a component
-- of what the function returns. A buffer is a list of bytes; a write or a read that leaves its buffer is
-- a fault. Integers are natural numbers with the wrap-around of their width written out. An
-- afc_error_t is the number with its 16 bits; the other error codes are data types. Numbers lie in memory
-- in little-endian order, as on the hosts that the library is built for.
--
-- Fuel. afc_receive_data, internal_ssl_read and the receive loop of the property list service take a
-- piece of one byte at least in each round, so that one round more than there are bytes is enough; the
-- first and the last take this fuel themselves. afc_file_read takes its fuel as an argument. The
-- loop over the segments of afc_file_write is recursion on their number. instproxy_perform_operation and
-- instproxy_browse take one answer of the device for each unit of fuel, as many as the device cares to
-- send; the loop of str_remove_spaces takes one byte of its string in each step.
--
-- Parameters. usbmuxd (Idevice.Usbmuxd), gnutls (Idevice.Gnutls), the conversions of libplist
-- (PropertyList.Libplist) and its nodes (Plist.PlistNodes), and what pairing takes from GnuTLS and
-- libtasn1 (Lockdown.Pairing.PairCrypto) are records of functions; the services above the property
-- list service take its functions as a record (DeviceLink.PlistPort, Lockdown.LockdownPort,
-- InstProxy.InstproxyPort, FileRelay.RelayPort), and Lockdown those of src/userpref.c
-- (Lockdown.Userpref). What is assumed of them stands in the hypotheses IsLossless, Delivers,
-- IsCounted, IsFaithful and IsBuilt, each of which the examples fill with functions that compute.
--
-- Not modelled: branches where malloc returns NULL; debug prints; threads, so that a mutex that is held
-- is one that its own thread holds, and the status updater of the installation proxy is a function
-- from its start to its end; functions that only free memory; userpref_get_keys_and_certs, which is
-- one of the setup calls; the other services and the tools.
pub mod Common
pub mod Channel
pub mod Afc
pub mod Idevice
pub mod PropertyList
pub mod DeviceLink
pub mod Lockdown
pub mod MobileSync
pub mod InstProxy
pub mod MobileBackup
pub mod HouseArrest
pub mod FileRelay
pub mod Ports
pub mod Plist
