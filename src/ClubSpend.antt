-- ===== src/ClubSpend.antt =====
-- src/club-spend.ts: the budget of a club for AI spending, in micro-cents. A reservation is written
-- before a call of the provider and settled after it. The table is the list of its rows, `now` is the
-- database's `now()` and `clock` the server's `Date.now()`, in milliseconds. The advisory lock on the
-- club is not modelled: transactions on one club run one after the other.
pub mod Pricing
pub mod Ledger
pub mod Settle
pub mod Safety
mod Tests
