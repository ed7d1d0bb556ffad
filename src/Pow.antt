-- ===== src/Pow.antt =====
-- src/pow-challenge.ts: the proof of work that an application takes.
pub mod Challenges
pub mod Verify
pub mod Tests
