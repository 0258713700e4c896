-- ===== src/Locks.antt =====
-- The two registers of locks: those of the office editors and those of sign-in attempts.
pub mod Wopi
pub mod Lockout
