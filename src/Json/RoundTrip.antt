-- ===== src/Json/RoundTrip.antt =====
-- What the parsers of libutils/json.c make of what its printers write.
pub mod Strings
pub mod Numbers
pub mod Numerals
pub mod Scalars
pub mod Printed
pub mod Printable
pub mod Steps
pub mod Lengths
pub mod Containers
pub mod Documents
pub mod Faults
