-- ===== src/Rebuild.antt =====
-- src/rebuild.rs: the rewriter that replaces the history before the current cycle by a projection,
-- its repair of orphaned tool results, and the soft-cap reduction pipeline.
pub mod Messages
pub mod Repair
pub mod SoftCap
pub mod Orientation
pub mod Sections
pub mod Apply
pub mod Envelope
