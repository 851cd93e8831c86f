-- ===== src/Capture.antt =====
-- The capture of HTTP exchanges, crates/ostk-cache-core/src/capture.rs.
pub mod Dedupe
pub mod Rotation
pub mod SelfLoop
pub mod Writer
mod Tests
