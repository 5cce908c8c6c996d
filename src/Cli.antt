-- ===== src/Cli.antt =====
-- cli.py: the command line.
pub mod Report
pub mod Run
pub mod Main
pub mod Laws
mod Tests
