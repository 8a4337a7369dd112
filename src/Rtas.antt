-- ===== src/Rtas.antt =====
-- rtas_errd: the handling of EPOW events, and the configuration file.
pub mod Epow
pub mod Config
pub mod Ela
mod Tests
mod ElaTests
