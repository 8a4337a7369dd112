-- ===== src/Diags.antt =====
-- diags/encl_common.c: what the enclosure diagnostics make of the status of an enclosure's
-- elements.
pub mod Status
mod Tests
