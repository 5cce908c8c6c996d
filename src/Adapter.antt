-- ===== src/Adapter.antt =====
-- adapters/sqlserver/: showplan XML into the plan's representation.
pub mod Xml
pub mod OperatorMap
pub mod Extract
pub mod Counters
pub mod MissingIndexes
pub mod Node
pub mod Build
pub mod Sample
mod Tests
