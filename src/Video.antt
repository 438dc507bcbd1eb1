-- ===== src/Video.antt =====
-- video/*.go: tracks and outputs, transcoding profiles, clips, and the tables of segments.
pub mod Tracks
pub mod Profiles
pub mod Clip
pub mod Segments
