-- ===== src/Quotas.antt =====
-- src/quotas.ts and src/quota-metadata.ts: the request quotas and the LLM output budget. A table is
-- the list of its rows, a query is a function of the tables and of the transaction's time `now()`,
-- in milliseconds; `Date.now()` of the server is a time of its own. Ids and slugs are opaque numbers.
-- The advisory locks are not modelled: transactions on one scope run one after the other.
pub mod Allowance
pub mod Usage
pub mod Enforce
pub mod Rolling
pub mod Reserve
mod Tests
