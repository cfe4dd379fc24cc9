-- ===== src/ServerPool.antt =====
-- server_pool.go, handler.go and connection.go: the server's side of the channels.
pub mod Backpressure
pub mod Conns
pub mod Admission
mod Tests
