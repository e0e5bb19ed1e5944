-- ===== src/Tests.antt =====
-- Runs of the definitions on small inputs, and the theorems applied to them.
pub mod Text
pub mod Graph
pub mod Plans
pub mod Reports
pub mod Rules
pub mod Values
pub mod Chains
pub mod Checked
pub mod Verdicts
pub mod Asked
pub mod Ldif
