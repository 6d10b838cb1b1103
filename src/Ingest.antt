-- ===== src/Ingest.antt =====
-- The ingestion process: ingestion/cursor.py and ingestion/main.py.
pub mod Produce
pub mod Kept
pub mod Watch
pub mod Members
pub mod Tasks
pub mod Starting
pub mod Running
pub mod Journey
