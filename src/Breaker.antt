-- ===== src/Breaker.antt =====
-- The circuit breaker, src/api/circuit_breaker.py: its state and the table behind it (Health, Table),
-- its operations (Entries, Ops), and what is proved of them.
pub mod Health
pub mod Table
pub mod Entries
pub mod Ops
pub mod Effects
pub mod Events
pub mod Ladder
pub mod Manual
pub mod Synced
pub mod Restart
pub mod Forget
pub mod Reads
mod Examples
