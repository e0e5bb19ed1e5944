-- ===== src/Access.antt =====
-- Access decisions: the relations, the verdicts and the targets of ipa_diagnose/access.
pub mod Index
pub mod Explain
pub mod Verdict
pub mod Targets
