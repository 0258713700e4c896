-- ===== src/SecondFactor.antt =====
-- The second factor of a local account: backend/src/utils/base32.js, backend/src/utils/totp.js and
-- backend/src/services/users/twoFactor.js.
pub mod Base32
mod BitStreams
mod Encoding
pub mod RoundTrip
pub mod Totp
pub mod TwoFactor
mod Updates
mod Removals
pub mod Attempts
pub mod Replay
pub mod Enrolment
mod Examples
