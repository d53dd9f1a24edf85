-- ===== src/Cache.antt =====
-- The prompt cache, src/api/prompt_cache.py.
pub mod Store
pub mod Bounds
mod Examples
