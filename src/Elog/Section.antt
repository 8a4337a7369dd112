-- ===== src/Elog/Section.antt =====
-- The section parsers of opal_errd/opal-elog-parse, one child for each group of sections.
pub mod Headers
pub mod Fixed
pub mod Notice
pub mod Text
pub mod Partition
pub mod Software
pub mod Safety
pub mod Faults
