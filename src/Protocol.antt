-- ===== src/Protocol.antt =====
-- protocol/protocol.go, protocol/errors.go and protocol/ip_strategy.go.
pub mod Wire
pub mod Message
pub mod HotPair
pub mod ConnId
pub mod Errors
mod Tests
pub mod IpStrategy
