-- ===== src/Memberships.antt =====
-- src/identity/memberships.ts and the block table of src/application-policy.ts: the memberships of a
-- club. A table is the list of its rows; `limit 1` takes the first. The rows that the handlers return
-- at the end are not modelled, and neither are the locks: transactions run one after the other.
pub mod Tables
pub mod Rules
pub mod Changes
pub mod Effects
pub mod Secured
pub mod Owner
mod Tests
