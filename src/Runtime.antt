-- ===== src/Runtime.antt =====
-- The component runtime, src/api/runtime.py.
pub mod Boot
pub mod Order
pub mod Start
pub mod Shutdown
pub mod Registry
mod Examples
