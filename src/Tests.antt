-- ===== src/Tests.antt =====
-- A node of a small network, runs of its daemon, and the theorems at its states.
pub mod Node
mod Tables
mod Handlers
mod Unknown
mod Interfaces
mod Exchange
mod Messages
mod Programs
mod Ring
mod Storm
mod Line
mod Returning
mod EndToEnd
mod Network
mod Runs
mod Pointers
