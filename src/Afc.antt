-- ===== src/Afc.antt =====
-- src/afc.c: the client of the Apple File Conduit.
pub mod Packet
pub mod Transfer
pub mod Op
pub mod Error
pub mod Session
pub mod Strings
pub mod Paths
pub mod Files
pub mod Read
pub mod Write
pub mod Client
pub mod Calls
pub mod Tests
