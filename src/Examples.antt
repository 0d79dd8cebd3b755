-- ===== src/Examples.antt =====
-- Concrete rows, and the theorems applied to them.
pub mod Data
mod Jobs
mod Gemini
mod Users
mod Records
mod Batches
mod Onedrive
mod Files
mod Exports
