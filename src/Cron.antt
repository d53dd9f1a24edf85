-- ===== src/Cron.antt =====
-- The requests to change a scheduled job (src/api/work_cron.py).
pub mod Fields
pub mod Ops
pub mod Shapes
pub mod Sound
pub mod Unchecked
mod Examples
