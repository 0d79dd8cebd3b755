-- ===== src/Batches.antt =====
-- batches/: documents, batches and exports, and the statuses that they aggregate.
pub mod Repository
pub mod Recompute
pub mod Service
pub mod Ingest
