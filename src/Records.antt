-- ===== src/Records.antt =====
-- records/: extracted records, their import and their review.
pub mod Repository
pub mod Service
pub mod History
pub mod NotRecorded
pub mod Review
pub mod Correction
pub mod Bulk
pub mod Creation
pub mod Audit
