-- ===== src/Edge.antt =====
-- The edge process, edge/main.py: frames of a camera stream to batches published over MQTT.
pub mod Pipeline
pub mod Held
pub mod Pacing
pub mod Batches
