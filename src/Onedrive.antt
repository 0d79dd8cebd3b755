-- ===== src/Onedrive.antt =====
-- onedrive/: links to shared folders, whose files are downloaded, classified and ingested.
pub mod Repository
pub mod Classification
pub mod Lifecycle
pub mod Ingest
pub mod Fetch
pub mod Intake
pub mod Service
pub mod Skips
pub mod Reclassify
pub mod Deleted
