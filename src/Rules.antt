-- ===== src/Rules.antt =====
-- rules/: the Tier 0 rules engine, a pure function from a plan to the ordered list of findings.
pub mod Finding
pub mod Script
pub mod Checks
pub mod Engine
pub mod Due
pub mod Order
pub mod Coverage
mod Tests
