-- ===== src/Validation.antt =====
-- internal/validation: continuous health tests, quick tests and min-entropy estimators.
pub mod Rct
pub mod Apt
pub mod Quick
pub mod Frequency
pub mod MinEntropy
