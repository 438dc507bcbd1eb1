-- ===== src/Pipeline.antt =====
-- pipeline/*.go: the coordinator of the upload jobs.
pub mod Strategy
pub mod Mp4
pub mod Job
pub mod Coordinator
pub mod Run
pub mod Upload
