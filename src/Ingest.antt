-- ===== src/Ingest.antt =====
-- internal/ingest: delivery of an envelope to an endpoint.
pub mod Chunks
pub mod Partition
pub mod World
pub mod Post
pub mod Send
pub mod Delivery
pub mod Lossless
pub mod Sent
pub mod Drained
