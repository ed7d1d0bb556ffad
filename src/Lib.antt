-- ===== src/Lib.antt =====
-- ClawClub server: the rules by which it admits, charges and changes things, with proofs about them.
--
-- The server takes one kind of request: an action by name, with a payload and a bearer token. The
-- dispatcher (src/dispatch.ts) authenticates the caller, authorizes the action by its declared auth and
-- scope, and, around the handler of the action, asks the client keys (src/idempotency.ts) whether the
-- request is a replay, the quotas (src/quotas.ts) and the budgets (src/quotas.ts, src/club-spend.ts)
-- whether it may cost something, and a language model whether its content may pass (the content gate).
-- The handlers then change tables in transactions.
--
-- Files and the code they model:
--   Common, with Common/Tests, Lists, Results, Texts, Scan and Decimal: tests, lists, results with an
--     error code, texts as lists of UTF-16 code units, reading them from the left, decimal numbers.
--   Errors: src/errors.ts, `ErrorCodes` and `ERROR_STATUS`.
--   Config: src/config/index.ts, `deriveQuotaWindowMaxes`. A multiplier is a fraction.
--   Quotas: src/quotas.ts and src/quota-metadata.ts. Quotas/Allowance has the actions and windows
--     (`buildAllowance`, `quotaExceededError`), Quotas/Usage the counting queries, Quotas/Enforce
--     `enforceActionQuota` and `getQuotaStatus`, Quotas/Reserve `reserveLlmOutputBudget` and
--     `finalizeLlmOutputBudget`, Quotas/Rolling sequences of requests.
--   ClubSpend: src/club-spend.ts. ClubSpend/Pricing has the estimates and prices, ClubSpend/Ledger the
--     table, its usage and `reserveClubSpendBudget`, ClubSpend/Settle finalizing, releasing and
--     sweeping, ClubSpend/Safety sequences of all of them.
--   Dispatch: src/dispatch.ts and src/gate-results.ts. Dispatch/Payload and Dispatch/Authorize have the
--     authorization helpers, Dispatch/Exec the calls that a request makes, Dispatch/Gate
--     `runLlmGateFor`, Dispatch/Pipeline the dispatch functions; Dispatch/Pays, SpendCounts, Settled,
--     Admission and Access have the proofs. The verdicts are those of src/gate.ts, the declarations of
--     an action those of src/schemas/registry.ts, the actor that of src/actors.ts.
--   Idempotency: src/idempotency.ts. Idempotency/Keys has the table, the lookup and `withIdempotency`,
--     Idempotency/Replay, Idempotency/Runs and Idempotency/Once have the proofs.
--   Events: src/clubs/events.ts, `rsvpEvent` and `cancelEventRsvp`. Events/Rsvps has the table of
--     answers and its view, Events/Handlers the handlers, Events/Capacity and Events/Versions proofs.
--   Memberships: src/identity/memberships.ts and the block table of src/application-policy.ts.
--     Memberships/Tables has the tables and the trigger on a new state version, Memberships/Rules the
--     checks and effects, Memberships/Changes the transactions, Memberships/Effects, Secured and Owner a
--     proof.
--   Tokens: src/token.ts and src/crockford.ts. Tokens/Alphabet has `randomCrockfordString`,
--     Tokens/Bearer the bearer tokens, Tokens/Invitations the invitation codes, Tokens/RoundTrip and
--     Tokens/Codes the proofs about them.
--   Streams: src/sse-resume.ts with the cursors of src/schemas/fields.ts in Streams/Cursors, with proofs
--     in Streams/Resume, and src/member-updates-notifier.ts: Streams/Notifier has its state and the
--     settling of waiters, Streams/Lifecycle the connection, `waitForUpdate` with its `sleep`, `close`
--     and the steps of the environment, Streams/Waiting, Waking, Messages, Connection, Recovery and
--     Closing the proofs.
--   Pow: src/pow-challenge.ts in Pow/Challenges, with a proof in Pow/Verify.
--   Mentions: src/mentions.ts. Mentions/Extract has the search for `[Display Name|memberId]`,
--     Mentions/Resolve the checks and the stored rows, Mentions/Stored the reading and copying of rows,
--     Mentions/Preflight the checks before a content is written; Mentions/Spans, Mentions/Allowed and
--     Mentions/Authors have the proofs.
--   Http: src/http-boundary.ts, `parseBearerAuthorization` and `readJsonBody`, in Http/Body, with a proof
--     in Http/Whole.
--   The Tests of a part run its functions on concrete tables and requests.
--
-- How code becomes definitions: a table is the list of its rows, and a query or update is a function
-- of it. `now` is the time of a transaction in milliseconds, and the server's own clock is a time of its
-- own. A transaction returns its answer with the new tables, and an error leaves them as they were.
-- Ids, slugs, notes and hashes are opaque numbers where the code only compares them. Numbers are
-- natural: counts, tokens and micro-cents are never negative, and where the code takes the maximum
-- with 0 of a difference, the subtraction of natural numbers does. BigInt amounts have no bound; where
-- they become a JavaScript number the bound 2^53 - 1 is in the definition. All functions are
-- structural recursions; only the digits of a number take fuel, the number itself, which is more than
-- it has digits. HMAC, SHA-256, base64url, UTF-8, JSON and `toUpperCase` are parameters, and a theorem that
-- needs something of them has it as a hypothesis. Random bytes are arguments. The notifier is a machine
-- of steps: what the Postgres client, the timers and the requests may do next is the relation `Step` of
-- Streams/Lifecycle. A request enters it once the pending connection attempt has settled; then it is a
-- waiter, asleep or settled. A call that settles a reservation and fails is recorded as a failed call.
--
-- Not modelled: the locks (a transaction sees no other half way; that `rsvpEvent` fails to serialize,
-- or meets a version that its snapshot does not show, is an input of the handler), the provider of the
-- language model, HTTP, connection pools, logging, the texts of messages and details of errors, the
-- response envelopes, and the parts of the server that no file above names.

pub mod Common
pub mod Config
pub mod Errors
pub mod Quotas
pub mod ClubSpend
pub mod Dispatch
pub mod Idempotency
pub mod Events
pub mod Memberships
pub mod Tokens
pub mod Streams
pub mod Pow
pub mod Mentions
pub mod Http
