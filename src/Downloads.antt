-- ===== src/Downloads.antt =====
-- backend/src/services/downloadPlans.js: selections that are downloaded in several requests.
pub mod Names
pub mod Plans
pub mod Kept
pub mod Runs
mod Examples
