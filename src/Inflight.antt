-- ===== src/Inflight.antt =====
-- The registry of running requests (src/api/inflight.py).
pub mod Live
pub mod Kept
