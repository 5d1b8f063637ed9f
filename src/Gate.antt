-- ===== src/Gate.antt =====
-- The gate before a milestone or a claim of support (scripts/validation_gate.py).
pub mod Values
pub mod Passed
pub mod Listed
pub mod Rows
pub mod Evidence
pub mod Judge
mod Tables
pub mod Decision
