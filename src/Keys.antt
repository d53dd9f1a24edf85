-- ===== src/Keys.antt =====
-- The client API keys, src/api/key_manager.py.
pub mod Table
pub mod Manager
pub mod Dead
pub mod Revoked
pub mod Grants
mod Examples
