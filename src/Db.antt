-- ===== src/Db.antt =====
-- The database: rows, tables, transactions.
pub mod Rows
pub mod Table
pub mod Result
