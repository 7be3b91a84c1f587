-- ===== src/Verify.antt =====
-- src/openlithohub/verify: the parts of the verifiers that are arithmetic on runs.
pub mod InterfaceRuns
pub mod Examples
