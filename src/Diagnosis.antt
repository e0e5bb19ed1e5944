-- ===== src/Diagnosis.antt =====
-- The diagnoses of a run and how they are ranked, related and reported: ipa_diagnose/engine/model.py,
-- ipa_diagnose/evidence/model.py and ipa_diagnose/engine/correlate.py.
pub mod Types
pub mod Rank
pub mod Causes
pub mod Demote
pub mod Undiagnosed
pub mod Status
pub mod Report
