-- ===== src/Refresh.antt =====
-- The stored payloads of the pricing plugins and their refresher (src/api/cost_cache.py).
pub mod Rows
pub mod Pass
pub mod Gates
pub mod Failures
pub mod Requests
mod Examples
