-- ===== src/Install.antt =====
-- The personal-use installation and its service lifecycle (scripts/personal_install.py).
pub mod Host
pub mod Staging
pub mod Account
pub mod Ownership
pub mod Service
pub mod Lifecycle
pub mod Removal
pub mod Preview
pub mod Command
