-- ===== src/Net.antt =====
-- src/network: the interfaces and their routes, addresses as text, the ARP table, the UDP sockets
-- and the TCP connections.
pub mod Route
pub mod Address
pub mod Arp
pub mod Checksum
pub mod Ip
pub mod Icmp
pub mod Ethernet
pub mod Tcp
pub mod Udp
pub mod Socket
pub mod Dhcp
mod Tests
mod TestPackets
mod TestLeases
