-- ===== src/Chain.antt =====
-- The walk down the provider chain, `forward_request` and `try_chain` of
-- src/api/request_pipeline.py.
pub mod Forward
pub mod Prepare
pub mod Walk
pub mod Steps
pub mod Accounts
pub mod Overrun
pub mod Prepared
pub mod Faults
pub mod Examples
