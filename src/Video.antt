-- ===== src/Video.antt =====
-- The `video_files` table: src/models/video_file.py and src/schemas/video_file.py. Times are naive
-- counts of microseconds; a path or URI and a hash are lists of codes.
pub mod Session
pub mod Service
pub mod Handler
pub mod Scheduler
pub mod Retry
pub mod Attempts
pub mod Tick
pub mod Limit
pub mod Dedup
pub mod Sentinel
pub mod Switch
pub mod Background
pub mod Marking
pub mod Stale
pub use portfolio_cv_project.Common.{Text}
use portfolio_cv_project.Common.{ℕ, Bool, true, false, List, Option, Error}

pub data VideoStatus : Type 0 where
  created processing completed failed invalid : VideoStatus

abbrev pub same_status : VideoStatus → VideoStatus → Bool
same_status created created = true
same_status processing processing = true
same_status completed completed = true
same_status failed failed = true
same_status invalid invalid = true
same_status _ _ = false

-- The texts that the program writes into `error_message`.
pub data Message : Type 0 where
  stuck : VideoStatus → Message
  plain : Error → Message
  retry_failed : Error → Message
  max_retry_attempts_exceeded : Message

pub record VideoFile : Type 0 where
  pub id : ℕ
  pub station_id : Option ℕ
  pub storage_uri : Text
  pub content_hash : Text
  pub started_at : ℕ
  pub ended_at : ℕ
  pub status : VideoStatus
  pub retry_count : Option ℕ
  pub error_message : Option Message
  pub frames_processed : ℕ
  pub triggers_fired : ℕ
  pub events_found : ℕ
  pub updated_at : ℕ
