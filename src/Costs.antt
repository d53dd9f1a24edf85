-- ===== src/Costs.antt =====
-- The token counts of src/api/request_pipeline.py that its costs stand on.
pub mod Usage
pub mod Reported
mod Examples
