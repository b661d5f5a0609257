-- ===== src/Tests.antt =====
-- Tests: the theorems at concrete inputs.
mod Data
mod Estimates
mod Stream
mod Traffic
mod Links
mod Process
mod Settings
