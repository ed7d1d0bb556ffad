-- ===== src/Idempotency.antt =====
-- src/idempotency.ts: client keys, by which a call that is sent again has its effect once. The hash of
-- a request is a parameter; contexts and keys are opaque numbers. The advisory locks are not modelled:
-- transactions of one key run one after the other. The code reads `expires_at` of a row nowhere.
pub mod Keys
pub mod Replay
pub mod Runs
pub mod Once
mod Tests
