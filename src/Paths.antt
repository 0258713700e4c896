-- ===== src/Paths.antt =====
-- backend/src/utils/pathUtils.js and backend/src/utils/bytePath.js: logical paths, as texts.
-- `path` is Node's, for POSIX.
pub mod Segments
pub mod Logical
pub mod Within
pub mod Normalization
pub mod Containment
mod Examples
