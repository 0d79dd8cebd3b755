-- ===== src/Jobs.antt =====
-- jobs/ and the job repository of db/repositories.py.
pub mod Paths
pub mod Repository
pub mod Lifecycle
pub mod Service
pub mod Gemini
pub mod Runner
pub mod Processing
pub mod Submission
pub mod Tick
