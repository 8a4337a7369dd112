-- ===== src/Common.antt =====
-- common/: the helpers that the tools share.
pub mod Platform
mod Tests
