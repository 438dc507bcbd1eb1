-- ===== src/Transcode.antt =====
-- transcode/*.go
pub mod Jobs
