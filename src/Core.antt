-- ===== src/Core.antt =====
-- crates/slice-core/src/lib.rs: the profile format, its validation and the percentile query.
pub mod Profile
pub mod Envelope
pub mod Float
pub mod Query
pub mod Rank
pub mod Tree
pub mod Validate
