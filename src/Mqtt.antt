-- ===== src/Mqtt.antt =====
-- The MQTT side: topics and URLs, the reconnecting subscriber, and the consumer process that
-- forwards each batch to the API.
pub mod Topic
pub mod Backoff
pub mod Consumer
pub mod Messages
pub mod Journey
pub mod Session
pub use portfolio_cv_project.Common.{Text}
