-- ===== src/Routes.antt =====
-- The route table of src/server/router.py.
pub mod Table
pub mod First
mod Examples
