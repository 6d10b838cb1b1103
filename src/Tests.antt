-- ===== src/Tests.antt =====
-- Runs of the program's parts on concrete data, and the theorems at concrete inputs.
mod Visits
mod Videos
mod Streams
mod Rules
mod Farms
mod Feeds
mod Channels
mod Jobs
mod Uploads
mod Boards
mod Lives
