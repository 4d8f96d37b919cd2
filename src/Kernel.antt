-- ===== src/Kernel.antt =====
-- packages/kernel: the session tree, its replay, and the tools' policies.
pub mod SessionTree
pub mod Replay
pub mod EventLog
pub mod PathPolicy
pub mod Compaction
pub mod AgentSession
pub mod EditTool
pub mod MutationQueue
mod Examples
