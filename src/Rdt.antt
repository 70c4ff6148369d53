-- ===== src/Rdt.antt =====
-- The reliable datagram layer, email-network-service/src/rdt: packets on the wire, the dispatcher
-- that owns the socket, the sender, the receiver, and the two together over a lossy channel.
pub mod Packet
pub mod Dispatcher
pub mod Sender
pub mod Receiver
pub mod Channel
mod Tests
