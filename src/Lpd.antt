-- ===== src/Lpd.antt =====
-- lpd/: the light path diagnostics, which switch the fault indicators (LEDs) of the parts that an
-- event of the service log names on, and off again when the event is closed.
pub mod Location
pub mod Supported
pub mod Indicators
pub mod Event
pub mod Repair
mod Tests
