-- ===== src/Reasoning.antt =====
-- The reasoning store, src/api/reasoning_store.py, and its use by
-- `ensure_thinking_reasoning_content` of src/api/request_pipeline.py.
pub mod Store
pub mod Presence
pub mod Recalled
mod Examples
