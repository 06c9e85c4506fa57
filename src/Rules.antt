-- ===== src/Rules.antt =====
-- backend/wiseway/rules.py: matching of masks, and the plan of a set of files.
pub mod Glob
pub mod Names
pub mod Plan
pub mod Keys
pub mod Collisions
mod Examples
