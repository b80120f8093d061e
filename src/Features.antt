-- ===== src/Features.antt =====
-- The feature platform (src/lzd_pipeline/features).
pub mod Window
pub mod Overlay
pub mod Spec
pub mod Compatibility
pub mod Versions
pub mod Sync
pub mod Tests
pub mod SyncTests
