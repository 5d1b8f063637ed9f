-- ===== src/Update.antt =====
-- Durable personal-installation transactions (scripts/personal_update.py).
pub mod Calls
pub mod Transaction
pub mod Durable
pub mod Runtime
