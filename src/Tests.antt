-- ===== src/Tests.antt =====
-- The theorems at concrete inputs.
pub mod World
pub mod Texts
pub mod Sending
mod Reading
mod Sessions
mod Searching
mod Registration
mod Records
mod Limits
pub mod Interface
mod Commands
