-- ===== src/Csv.antt =====
-- The CSV reader and writer: libutils/csv_parser.c and libutils/csv_writer.c.
pub mod Writer
pub mod Parser
pub mod RoundTrip
mod Tests
