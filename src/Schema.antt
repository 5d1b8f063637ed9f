-- ===== src/Schema.antt =====
-- The JSON Schema validator (scripts/json_schema.py).
pub mod Reference
pub mod Keywords
pub mod Members
pub mod Validate
