-- ===== src/Events.antt =====
-- src/clubs/events.ts: RSVPs to events. The table `event_rsvps` is append-only: each answer is a new
-- version, and the view `current_event_rsvps` has the last version of each membership.
-- Transactions run one after the other (they are serializable or hold the locks); whether
-- `pg_try_advisory_xact_lock` got the lock of the membership is part of the input.
pub mod Rsvps
pub mod Handlers
pub mod Capacity
pub mod Versions
mod Tests
