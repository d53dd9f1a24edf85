-- ===== src/Profiles.antt =====
-- The optional fields of a profile (src/api/config.py).
pub mod Fields
pub mod Labels
pub mod Checked
mod Examples
