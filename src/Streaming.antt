-- ===== src/Streaming.antt =====
-- src/openlithohub/streaming: core and halo tiling of a full chip.
pub mod Faults
pub mod Geometry
pub mod CoreHalo
pub mod Ownership
pub mod Work
pub mod VectorRuns
pub mod OwnedRuns
pub mod Verification
pub mod Sinks
pub mod Manhattan
pub mod Pipeline
pub mod RunStreaming
pub mod Examples
