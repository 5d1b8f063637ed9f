-- ===== src/Measurement.antt =====
-- Output measurements against the print oracle (scripts/output_measurement.py).
pub mod Reading
pub mod Criteria
pub mod Truth
