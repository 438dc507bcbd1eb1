-- ===== src/Scenarios.antt =====
-- Concrete runs of the models, and the theorems at concrete inputs.
mod Callbacks
mod Jobs
mod Transcoding
mod Access
mod Media
mod Mist
mod Sorting
mod Balancing
mod Clipping
mod Streams
mod Viewers
mod Redirects
mod Connector
mod Playlists
