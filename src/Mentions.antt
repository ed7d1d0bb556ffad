-- ===== src/Mentions.antt =====
-- src/mentions.ts: the mentions of members in contents and messages.
pub mod Extract
pub mod Spans
pub mod Resolve
pub mod Allowed
pub mod Tests
pub mod Stored
pub mod Preflight
pub mod Authors
