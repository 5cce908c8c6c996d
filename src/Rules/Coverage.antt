-- ===== src/Rules/Coverage.antt =====
-- `evaluate` of rules/engine.py against the relation of Due, in both directions.
pub mod Walk
pub mod Sound
pub mod Found
pub mod Complete
pub mod Total
