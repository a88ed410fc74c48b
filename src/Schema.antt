-- ===== src/Schema.antt =====
-- internal/schema: the device inventory envelope, the fingerprints and the entity builder.
pub mod Types
pub mod Fingerprint
pub mod Label
pub mod Entity
pub mod Keys
