-- ===== src/Handler.antt =====
-- The message handlers of assign3/odr_and.c.
pub mod Arrival
pub mod Onward
pub mod Relay
pub mod Learn
pub mod Ether
pub mod Peer
pub mod SameRoutes
pub mod Knowing
pub mod Invariant
pub mod Requests
pub mod Discovery
pub mod Forwarding
pub mod Serving
pub mod Progress
pub mod Total
pub mod Unknown
pub mod PeerTotal
