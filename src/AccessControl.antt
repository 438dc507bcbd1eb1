-- ===== src/AccessControl.antt =====
-- handlers/accesscontrol/access-control.go: who may play a stream. `Gate` is the client of the gate
-- API, `Store` the caches, `Request` the decision on a request; the other children are the proofs.
pub mod Gate
pub mod Store
pub mod Request
pub mod Freshness
pub mod Cleared
pub mod Decision
pub mod Tokens
pub mod Limits
pub mod Answers
