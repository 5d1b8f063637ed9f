-- ===== src/Release.antt =====
-- Local, immutable release records (scripts/personal_release.py).
pub mod Calls
pub mod Files
pub mod World
pub mod Looks
pub mod Records
pub mod Bundle
pub mod Checks
pub mod Tag
pub mod Stages
