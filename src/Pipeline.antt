-- ===== src/Pipeline.antt =====
-- The request pipeline, src/api/request_pipeline.py: messages and their repair, the classification
-- of upstream errors, retries, and the walk down the provider chain.
pub mod Message
pub mod Sanitize
pub mod Ids
pub mod Balance
pub mod Normalize
pub mod Tools
pub mod ToolOrder
pub mod Errors
pub mod Retry
mod Examples
