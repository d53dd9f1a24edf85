-- ===== src/Intent.antt =====
-- The newest instruction of a conversation, and the task that it stands for (src/api/message_norm.py, and
-- `classify_task_detail` of src/api/router.py).
pub mod Chars
pub mod Signals
pub mod Said
pub mod Patterns
pub mod Tags
pub mod Preamble
pub mod Walk
pub mod Stripped
pub mod Described
pub mod Newest
pub mod Exemplars
pub mod Semantic
pub mod Nearest
pub mod Tokens
pub mod Classify
pub mod Structure
pub mod Judged
pub mod Meaning
mod Examples
