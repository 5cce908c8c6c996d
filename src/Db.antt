-- ===== src/Db.antt =====
-- db/: validation of SQL texts, and the live SQL Server session behind pyodbc.
pub mod QuerySafety
pub mod Connection
pub mod Driver
pub mod Capture
pub mod Catalog
pub mod Sample
mod Tests
