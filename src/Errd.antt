-- ===== src/Errd.antt =====
-- opal_errd/opal_errd.c and opal_errd/extract_opal_dump.c: the daemon that stores the platform's
-- error logs and rotates the files, and the storing of dumps.
pub mod Files
pub mod Classify
pub mod Rotate
pub mod Process
pub mod Rename
pub mod Dump
mod Tests
mod DumpTests
