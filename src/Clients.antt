-- ===== src/Clients.antt =====
-- The programs under clients/: the sender, clients/sender_1/src/main.rs, and the receiver,
-- clients/receiver_1/src/main.rs.
pub mod Primitives
pub mod Sender
pub mod Receiver
pub mod RoundTrip
pub mod Wire
pub mod Delivery
pub mod KeyExchange
pub mod KeyDistribution
pub mod Console
