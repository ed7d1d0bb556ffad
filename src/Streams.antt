-- ===== src/Streams.antt =====
-- The streams of updates: where a client resumes (src/sse-resume.ts), and how the requests that wait
-- for an update are woken (src/member-updates-notifier.ts).
pub mod Cursors
pub mod Resume
pub mod Tests
pub mod Notifier
pub mod Lifecycle
pub mod Waiting
pub mod Waking
pub mod Messages
pub mod Connection
pub mod Recovery
pub mod Closing
