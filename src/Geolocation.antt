-- ===== src/Geolocation.antt =====
-- handlers/geolocation/geolocation.go: the members of the cluster, the pull of a stream, the answer
-- to STREAM_SOURCE, and the paths of playback requests.
pub mod Members
pub mod Pull
pub mod Source
pub mod Paths
pub mod Redirect
