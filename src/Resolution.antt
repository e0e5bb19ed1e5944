-- ===== src/Resolution.antt =====
-- The resolution layer of ipa_diagnose/resolution: the types of the values that may reach a printed
-- command.
pub mod Regex
pub mod Text
pub mod Patterns
pub mod Types
pub mod Subjects
