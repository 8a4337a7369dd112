-- ===== src/Rtas/Ela.antt =====
-- rtas_errd/ela.c: the analysis of error logs of the versions before 6, which makes a service
-- request number (SRN) and a list of callouts of the bytes of a log.
pub mod Message
pub mod Description
pub mod Tables
pub mod State
pub mod Locations
pub mod Registers
pub mod Report
pub mod Refcodes
pub mod Symptom
pub mod Sensor
pub mod Warnings
pub mod IoBus
pub mod Version3
pub mod CpuFrus
pub mod Actions
pub mod PreV6
pub mod PartNumber
