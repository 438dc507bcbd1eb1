-- ===== src/Callback.antt =====
-- clients/callback_client_status.go and clients/callback_client.go: the status messages of a job,
-- the overall completion ratio, and the client that delivers them. `Status` has the messages and
-- ratios, `Client` the client, and the other children the proofs.
pub mod Ratio
pub mod Status
pub mod Client
