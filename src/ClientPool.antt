-- ===== src/ClientPool.antt =====
-- pool.go: the client's channels, their write queues, and the connections that they carry.
pub mod Writer
pub mod Dial
pub mod Pressure
pub mod Budget
pub mod Registry
pub mod Dispatch
pub mod Tests
pub mod Writes
