-- ===== src/Operations.antt =====
-- backend/src/services/operationTasks.js: the register of operations that outlive their requests.
pub mod Owners
pub mod Tasks
pub mod News
pub mod Pump
pub mod Handle
pub mod Register
pub mod Steady
pub mod Kept
pub mod Invariant
pub mod Runs
pub mod Endings
pub mod Visibility
pub mod NewsLaws
mod Examples
