-- ===== src/Planner.antt =====
-- ipa_diagnose/planner/core.py: the bounded, deterministic investigation planner.
pub mod Types
pub mod Context
pub mod Errors
pub mod Validate
pub mod Decide
pub mod Visit
pub mod Subjects
pub mod Run
pub mod View
