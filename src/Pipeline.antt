-- ===== src/Pipeline.antt =====
-- The processing of a Recording (src/meeting_mgr/pipeline/).
pub mod Orchestrate
pub mod Align
pub mod Transcript
pub mod Extract
pub mod Attribute
pub mod Stages
pub mod Reassembly
