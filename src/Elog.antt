-- ===== src/Elog.antt =====
-- opal_errd/opal-elog-parse.
pub mod Memory
pub mod Header
pub mod Section
pub mod Fru
pub mod Src
pub mod EventLog
pub mod Table
pub mod Parse
pub mod Command
mod Tests
mod SectionTests
mod CommandTests
