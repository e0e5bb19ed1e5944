-- ===== src/Environment.antt =====
-- ipa_diagnose/environment: the per-run model of the environment around an investigation.
pub mod Types
pub mod Graph
pub mod Lookup
pub mod Kinds
