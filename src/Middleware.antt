-- ===== src/Middleware.antt =====
-- middleware: the wrappers of the HTTP handlers that decide on a request.
pub mod Auth
pub mod Capacity
