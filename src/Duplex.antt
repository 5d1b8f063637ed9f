-- ===== src/Duplex.antt =====
-- Manual duplex (scripts/manual_duplex.py): the order in which pages are printed, and the two-pass
-- workflow against the provider.
pub mod Plan
pub mod Workflow
pub mod Backend
