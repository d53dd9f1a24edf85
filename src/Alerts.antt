-- ===== src/Alerts.antt =====
-- Alerts, src/api/alert_manager.py.
pub mod Manager
pub mod Cooldown
pub mod Closing
mod Examples
