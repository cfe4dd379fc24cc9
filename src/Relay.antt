-- ===== src/Relay.antt =====
-- relay.go: the relay nodes through which the client may reach the server, their scores and loads.
-- Floats are read as exact fractions, and the clock and the random draw are arguments.
pub mod Fraction
pub mod Nodes
pub mod Health
pub mod Loads
pub mod Select
pub mod Resolve
pub mod Tests
