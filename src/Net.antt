-- ===== src/Net.antt =====
-- The wire format of src/net: datagrams, the iterator that reads them, and the TCP framing.
pub mod Datagram
pub mod DatagramIterator
pub mod Items
pub mod Header
pub mod Fields
pub mod TcpTransport
pub mod NetworkClient
mod Examples
