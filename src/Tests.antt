-- ===== src/Tests.antt =====
-- Runs at concrete inputs: each theorem that has hypotheses, applied where they hold.
pub mod Scans
pub mod Ids
pub mod Store
pub mod Sorts
pub mod Messages
pub mod Windows
pub mod Ranges
