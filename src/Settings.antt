-- ===== src/Settings.antt =====
-- The settings store of src/api/cost_cache.py (`SettingsStore`), and the scope of a profile that the
-- router reads from it.
pub mod Table
pub mod Store
pub mod Routing
pub mod Coherent
pub mod Scoped
pub mod Sections
mod Examples
