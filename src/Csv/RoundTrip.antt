-- ===== src/Csv/RoundTrip.antt =====
-- The CSV parser reads back what the CSV writer writes.
pub mod Bare
pub mod BareFields
pub mod Quoted
pub mod Records
pub mod Lines
pub mod Faults
