-- ===== src/ClubSpend/Settle.antt =====
-- src/club-spend.ts: `finalizeClubSpendBudget`, `releaseClubSpendBudget` and
-- `sweepExpiredClubSpendReservations`.
use clawclub_server.Common.{
  String, ℕ, ◌≤◌, ◌≡◌, refl, ap, Bool, true, false, ◌&&◌, Option, none, some, arith, ltb, leb, ◌==◌,
  if◌then◌else◌, count_by, find, update_where, Result, ok, err, ◌>>=◌, ◌>>◌, guard,
  sum_by-update_where_eq, update_where_idem, >>=-eq-ok, count_by-update_where, find-update_where,
  update_where-none,
}
use mathlib.Core.Path.{ap₂}
use text.Mathlib.Text.{◌==◌ as str_eq}
use clawclub_server.Errors.{invalid_data}
use clawclub_server.Quotas.Usage.{ReservationStatus, pending, finalized, released, per_window}
use clawclub_server.ClubSpend.Pricing.{
  UsageKind, gate, embedding, compute_gate_actual_micro_cents, compute_embedding_actual_micro_cents,
}
use clawclub_server.ClubSpend.Ledger.{
  SpendReservationRow, Ledger, club_units, count_club_spend_usage,
}

-- CLAWCLUB_OPENAI_MODEL
abbrev pub openai_model : String
openai_model = "gpt-5.4-nano"

-- The usage that a caller reports, by its `usageKind`.
pub data ActualUsage : Type 0 where
  gate_usage : (prompt_tokens completion_tokens : ℕ) → ActualUsage
  embedding_usage : (embedding_tokens : ℕ) → ActualUsage

abbrev pub is_pending : ReservationStatus → Bool
is_pending pending = true
is_pending _ = false

-- where id = $1 and status = 'pending'
abbrev pub is_open : ℕ → SpendReservationRow → Bool
is_open reservation_id r = r.id == reservation_id && is_pending r.status

-- What the update of a finalized reservation writes beside its status.
pub record Actual : Type 0 where
  pub micro_cents : ℕ
  pub prompt_tokens : Option ℕ
  pub completion_tokens : Option ℕ
  pub embedding_tokens : Option ℕ

unfoldable pub actual_of : UsageKind → String → ActualUsage → Result Actual
actual_of gate model (embedding_usage tokens) = err invalid_data
actual_of gate model (gate_usage prompt completion) = do
  guard (str_eq model openai_model) invalid_data
  ok (record {
    micro_cents = compute_gate_actual_micro_cents prompt completion;
    prompt_tokens = some prompt;
    completion_tokens = some completion;
    embedding_tokens = none;
  })
actual_of embedding model (gate_usage prompt completion) = err invalid_data
actual_of embedding model (embedding_usage tokens) = ok (record {
  micro_cents = compute_embedding_actual_micro_cents tokens;
  prompt_tokens = none;
  completion_tokens = none;
  embedding_tokens = some tokens;
})

abbrev pub settle_row : ℕ → Actual → SpendReservationRow → SpendReservationRow
settle_row now actual r = record r {
  status = if ltb 0 actual.micro_cents then finalized else released;
  actual_micro_cents = some actual.micro_cents;
  actual_prompt_tokens = actual.prompt_tokens;
  actual_completion_tokens = actual.completion_tokens;
  actual_embedding_tokens = actual.embedding_tokens;
  finalized_at = some now;
}

abbrev pub finalize_found :
    Ledger → ℕ → ℕ → ActualUsage → Option SpendReservationRow → Result Ledger
finalize_found rows now reservation_id usage none = ok rows
finalize_found rows now reservation_id usage (some row) = do
  actual ← actual_of row.usage_kind row.model usage
  ok (update_where (is_open reservation_id) (settle_row now actual) rows)

-- The warning of a reservation that was too small is logged only.
unfoldable pub finalize_club_spend_budget : Ledger → ℕ → ℕ → ActualUsage → Result Ledger
finalize_club_spend_budget rows now reservation_id usage =
    finalize_found rows now reservation_id usage (find (is_open reservation_id) rows)

abbrev pub release_row : ℕ → SpendReservationRow → SpendReservationRow
release_row now r = record r {
  status = released;
  actual_micro_cents = some 0;
  actual_prompt_tokens = none;
  actual_completion_tokens = none;
  actual_embedding_tokens = none;
  finalized_at = some now;
}

unfoldable pub release_club_spend_budget : Ledger → ℕ → ℕ → Ledger
release_club_spend_budget rows now reservation_id =
    update_where (is_open reservation_id) (release_row now) rows

-- where status = 'pending' and expires_at <= now()
abbrev pub is_expired : ℕ → SpendReservationRow → Bool
is_expired now r = is_pending r.status && leb r.expires_at now

-- The new table, and the number of rows that were released.
unfoldable pub sweep_expired_club_spend_reservations : Ledger → ℕ → Ledger × ℕ
sweep_expired_club_spend_reservations rows now =
    (update_where (is_expired now) (release_row now) rows, count_by (is_expired now) rows)

module _ (now later interval club_id : ℕ) where
  -- A row counts for nothing from its expiry on, and a released one counts for nothing.
  expired_units :
      (r : SpendReservationRow)
      → now ≤ later
      → is_expired now r ≡ true
      → club_units club_id later interval (release_row now r) ≡ club_units club_id later interval r
  expired_units r h e = ground arith

-- Sweeping the expired reservations changes no usage that is counted at the time of the sweep or
-- later, of any club and in any window.
pub count_club_spend_usage-sweep :
    (rows : Ledger) (now later club_id : ℕ)
    → now ≤ later
    → count_club_spend_usage (sweep_expired_club_spend_reservations rows now).0 later club_id
      ≡ count_club_spend_usage rows later club_id
unfolding count_club_spend_usage sweep_expired_club_spend_reservations
count_club_spend_usage-sweep rows now later club_id h = ap per_window λ i interval.
    sum_by-update_where_eq (club_units club_id later interval) (is_expired now) (release_row now)
      rows (λ r. expired_units now later interval club_id r h) i

swept : (now : ℕ) (r : SpendReservationRow) → is_expired now (release_row now r) ≡ false
swept now r = refl

-- A sweep releases every expired reservation: a second sweep at that time finds none.
sweep-sweep :
    (rows : Ledger) (now : ℕ)
    → sweep_expired_club_spend_reservations (sweep_expired_club_spend_reservations rows now).0 now
      ≡ ((sweep_expired_club_spend_reservations rows now).0, 0)
unfolding sweep_expired_club_spend_reservations
sweep-sweep rows now =
    ap₂ (λ a b. (a, b))
      (update_where_idem (is_expired now) (release_row now) (release_row now) rows (swept now))
      (count_by-update_where (is_expired now) (release_row now) rows (swept now))

abbrev IsSettled : Ledger → ℕ → Type 0
IsSettled rows reservation_id = find (is_open reservation_id) rows ≡ none

settle_row_closed :
    (reservation_id now : ℕ) (actual : Actual) (r : SpendReservationRow)
    → is_open reservation_id (settle_row now actual r) ≡ false
settle_row_closed reservation_id now actual r = ground arith

release_row_closed :
    (reservation_id now : ℕ) (r : SpendReservationRow)
    → is_open reservation_id (release_row now r) ≡ false
release_row_closed reservation_id now r = ground arith

finalize_found-IsSettled :
    (rows rows' : Ledger) (now reservation_id : ℕ) (usage : ActualUsage)
    (found : Option SpendReservationRow)
    → find (is_open reservation_id) rows ≡ found
    → finalize_found rows now reservation_id usage found ≡ ok rows'
    → IsSettled rows' reservation_id
finalize_found-IsSettled rows rows' now i usage none e h = ground arith
finalize_found-IsSettled rows rows' now i usage (some row) e h =
    let (actual, _, same) = >>=-eq-ok (actual_of row.usage_kind row.model usage) _ h in
    let there : update_where (is_open i) (settle_row now actual) rows ≡ rows' =
      ground (arith, same) in
    rw (← there)
      (find-update_where (is_open i) (settle_row now actual) rows (settle_row_closed i now actual))

stays_settled :
    (rows : Ledger) (reservation_id : ℕ)
    → IsSettled rows reservation_id
    → (later : ℕ) (usage : ActualUsage)
    → (finalize_club_spend_budget rows later reservation_id usage ≡ ok rows)
      × (release_club_spend_budget rows later reservation_id ≡ rows)
unfolding finalize_club_spend_budget release_club_spend_budget
stays_settled rows reservation_id h later usage =
    (rw h, update_where-none (is_open reservation_id) (release_row later) rows h)

-- A reservation that was finalized is settled for good: to finalize it again, with any usage, and to
-- release it leave the table as it is.
pub finalize_settles :
    (rows rows' : Ledger) (now reservation_id : ℕ) (usage : ActualUsage)
    → finalize_club_spend_budget rows now reservation_id usage ≡ ok rows'
    → (later : ℕ) (again : ActualUsage)
    → (finalize_club_spend_budget rows' later reservation_id again ≡ ok rows')
      × (release_club_spend_budget rows' later reservation_id ≡ rows')
unfolding finalize_club_spend_budget
finalize_settles rows rows' now i usage h =
    stays_settled rows' i
      (finalize_found-IsSettled rows rows' now i usage (find (is_open i) rows) refl h)

-- A reservation that was released is settled for good: to finalize it, with any usage, and to release
-- it again leave the table as it is.
pub release_settles :
    (rows : Ledger) (now reservation_id later : ℕ) (again : ActualUsage)
    → let rows' = release_club_spend_budget rows now reservation_id in
      (finalize_club_spend_budget rows' later reservation_id again ≡ ok rows')
      × (release_club_spend_budget rows' later reservation_id ≡ rows')
unfolding release_club_spend_budget
release_settles rows now i later again =
    stays_settled _ i
      (find-update_where (is_open i) (release_row now) rows (release_row_closed i now)) later again
