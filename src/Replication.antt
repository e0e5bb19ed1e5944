-- ===== src/Replication.antt =====
-- The replication mode of ipa_diagnose/replication: the causal knowledge that its chains rest on, and
-- the reader of LDIF.
pub mod Causal
pub mod Ldif
