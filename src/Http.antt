-- ===== src/Http.antt =====
-- src/http-boundary.ts: what the server reads of a request.
pub mod Body
pub mod Whole
pub mod Tests
