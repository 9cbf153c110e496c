-- ===== src/Auth.antt =====
-- Authentication: apps/core-hub/src/modules/auth.
pub mod DenyList
pub mod Otp
pub mod Sessions
pub mod Guard
pub mod Devices
mod Samples
mod Tests
