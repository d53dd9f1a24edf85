-- ===== src/Router.antt =====
-- The dynamic router (src/api/router.py): the names of models, their scores, the rules, the built
-- chain, and the choice of a chain.
pub mod Names
pub mod Scores
pub mod Rules
pub mod Build
pub mod Request
pub mod Select
pub mod Blocks
pub mod Free
pub mod Targets
pub mod Built
pub mod Routed
pub mod Safe
pub mod Choice
pub mod Intents
pub mod Audit
pub mod Resolved
pub mod Prefers
pub mod Served
pub mod Gateway
pub mod Capacity
pub mod Aliases
pub mod Sample
pub mod Runs
mod Examples
