-- ===== src/Quotas/Reserve.antt =====
-- src/quotas.ts: `reserveLlmOutputBudget` and `finalizeLlmOutputBudget`.
use clawclub_server.Common.{
  ℕ, ◌+◌, ◌≤◌, ◌<◌, ◌≡◌, ap, inl, inr, Bool, true, false, not, ◌&&◌, none, some, ◌∷◌, arith, ltb,
  ◌==◌, if◌then◌else◌, update_where, All, Result, ok, err, ◌>>◌, guard, after, Bool-cases, ==_iff,
  sum_by_mono, sum_by-update_where-All, update_where_idem, All-map,
}
use clawclub_server.Errors.{quota_exceeded}
use clawclub_server.Config.{PerWindow}
use clawclub_server.Quotas.Allowance.{
  llm_output_tokens, StructuredQuotaAllowance, QuotaPolicy, Fits, plus, over_limit, build_allowance,
  over_limit-eq-false_iff,
}
use clawclub_server.Quotas.Usage.{
  QuotaDb, LlmReservationRow, ReservationStatus, pending, finalized, released,
  count_llm_output_usage, llm_units, llm_units_mono,
}
use clawclub_server.Quotas.Enforce.{maxes_of}

-- const LLM_OUTPUT_RESERVATION_TTL_MS = 10 * 60 * 1000
abbrev pub llm_output_reservation_ttl_ms : ℕ
llm_output_reservation_ttl_ms = 600_000

pub record ReserveInput : Type 0 where
  pub member_id : ℕ
  pub club_id : ℕ
  pub max_output_tokens : ℕ

-- The row that is inserted; `id` is the identifier that the database makes, and `clock` is
-- `Date.now()`.
abbrev pub reservation_row : ℕ → ℕ → ℕ → ReserveInput → LlmReservationRow
reservation_row id now clock input = record {
  id = id;
  member_id = input.member_id;
  club_id = input.club_id;
  status = pending;
  reserved_output_tokens = input.max_output_tokens;
  actual_output_tokens = none;
  created_at = now;
  expires_at = clock + llm_output_reservation_ttl_ms;
}

abbrev pub insert_reservation : QuotaDb → LlmReservationRow → QuotaDb
insert_reservation db row = record db {
  ai_llm_quota_reservations = row ∷ db.ai_llm_quota_reservations;
}

unfoldable pub reserve_llm_output_budget :
    QuotaPolicy → QuotaDb → ℕ → ℕ → ℕ → ReserveInput → Result (StructuredQuotaAllowance × QuotaDb)
reserve_llm_output_budget p db id now clock input = do
  let counts = count_llm_output_usage db now input.member_id input.club_id
  let allow = λ (c : PerWindow).
      build_allowance p llm_output_tokens (some input.club_id) (p.daily_max llm_output_tokens) c
  guard (not (over_limit (allow counts) input.max_output_tokens)) quota_exceeded
  ok (
    allow (plus counts input.max_output_tokens),
    insert_reservation db (reservation_row id now clock input),
  )

abbrev pub is_pending : ReservationStatus → Bool
is_pending pending = true
is_pending _ = false

-- where id = $1 and status = 'pending'
abbrev is_open : ℕ → LlmReservationRow → Bool
is_open reservation_id r = r.id == reservation_id && is_pending r.status

-- `Math.max(0, actualOutputTokens)` is the number itself.
abbrev finalize_row : ℕ → LlmReservationRow → LlmReservationRow
finalize_row actual r = record r {
  status = if ltb 0 actual then finalized else released;
  actual_output_tokens = some actual;
}

unfoldable pub finalize_llm_output_budget : QuotaDb → ℕ → ℕ → QuotaDb
finalize_llm_output_budget db reservation_id actual = record db {
  ai_llm_quota_reservations =
      update_where (is_open reservation_id) (finalize_row actual) db.ai_llm_quota_reservations;
}

settled :
    (reservation_id actual : ℕ) (r : LlmReservationRow)
    → is_open reservation_id (finalize_row actual r) ≡ false
settled reservation_id actual r = ground arith

-- Finalizing settles a reservation for good: finalizing it once more, with any number, changes
-- nothing.
finalize-finalize :
    (db : QuotaDb) (reservation_id actual again : ℕ)
    → finalize_llm_output_budget
        (finalize_llm_output_budget db reservation_id actual)
        reservation_id
        again
      ≡ finalize_llm_output_budget db reservation_id actual
unfolding finalize_llm_output_budget
finalize-finalize db reservation_id actual again =
    ap (λ rows. record db { ai_llm_quota_reservations = rows })
      (update_where_idem _ (finalize_row actual) (finalize_row again) db.ai_llm_quota_reservations
        (settled reservation_id actual))

module _ (p : QuotaPolicy) (db : QuotaDb) (id now clock : ℕ) (input : ReserveInput) where
  -- A reservation passes exactly when its tokens fit into the three windows of the member in the
  -- club. It then adds one pending row and reports the usage with the reservation in it; otherwise
  -- the error is quota_exceeded.
  pub reserve_llm_output_budget_lem :
      let used = count_llm_output_usage db now input.member_id input.club_id in
      let maxes = maxes_of p (p.daily_max llm_output_tokens) in
      (Fits (plus used input.max_output_tokens) maxes
        → reserve_llm_output_budget p db id now clock input
          ≡ ok (
            build_allowance p llm_output_tokens
                (some input.club_id)
                (p.daily_max llm_output_tokens)
                (plus used input.max_output_tokens),
            insert_reservation db (reservation_row id now clock input),
          ))
      × (¬ Fits (plus used input.max_output_tokens) maxes
          → reserve_llm_output_budget p db id now clock input ≡ err quota_exceeded)
  unfolding reserve_llm_output_budget
  reserve_llm_output_budget_lem =
      let law =
        over_limit-eq-false_iff p llm_output_tokens (some input.club_id)
          (p.daily_max llm_output_tokens)
          (count_llm_output_usage db now input.member_id input.club_id) input.max_output_tokens in
      (λ f. rw (law.1 f), λ f. ground (arith, law))

-- No member has more output tokens reserved and used in a club than the window maxima.
pub record WithinBudget (p : QuotaPolicy) (db : QuotaDb) (now : ℕ) : Type 0 where
  pub fits :
      (member_id club_id : ℕ)
      → Fits
          (count_llm_output_usage db now member_id club_id)
          (maxes_of p (p.daily_max llm_output_tokens))

-- The reservation is finalized before it expires, at no more than it reserved.
abbrev pub SettlesInTime : QuotaDb → ℕ → ℕ → ℕ → Type 0
SettlesInTime db now reservation_id actual =
    All (λ r. r.id ≡ reservation_id → (now < r.expires_at) × (actual ≤ r.reserved_output_tokens))
      db.ai_llm_quota_reservations

-- What happens to the reservations, at a time: time passes, a call reserves, a call finalizes.
pub data BudgetStep (p : QuotaPolicy) : QuotaDb × ℕ → QuotaDb × ℕ → Type 0 where
  wait : (db : QuotaDb) (now ms : ℕ) → BudgetStep p (db, now) (db, now + ms)
  reserve :
      (db : QuotaDb) (now id clock : ℕ) (input : ReserveInput)
      → BudgetStep p (db, now) (after db (reserve_llm_output_budget p db id now clock input), now)
  finalize :
      (db : QuotaDb) (now reservation_id actual : ℕ)
      → SettlesInTime db now reservation_id actual
      → BudgetStep p (db, now) (finalize_llm_output_budget db reservation_id actual, now)

pub data BudgetRun (p : QuotaPolicy) (s : QuotaDb × ℕ) : QuotaDb × ℕ → Type 0 where
  start : BudgetRun p s s
  next : {t u : QuotaDb × ℕ} → BudgetRun p s t → BudgetStep p t u → BudgetRun p s u

abbrev units_of : ℕ → ℕ → ℕ → ℕ → LlmReservationRow → ℕ
units_of member_id club_id now interval r =
    if r.member_id == member_id && r.club_id == club_id then llm_units now interval r else 0

wait-WithinBudget :
    (p : QuotaPolicy) (db : QuotaDb) (now ms : ℕ)
    → WithinBudget p db now
    → WithinBudget p db (now + ms)
unfolding count_llm_output_usage
wait-WithinBudget p db now ms w = record {
  fits = λ m c.
      let shrink = λ (interval : ℕ).
        sum_by_mono (units_of m c (now + ms) interval) (units_of m c now interval)
          db.ai_llm_quota_reservations
          (λ r. ground (arith, llm_units_mono interval now (now + ms) r (omega arith))) in
      omega (arith, w.fits m c, shrink 86_400_000, shrink 604_800_000, shrink 2_592_000_000);
}

insert-WithinBudget :
    (p : QuotaPolicy) (db : QuotaDb) (id now clock : ℕ) (input : ReserveInput)
    → WithinBudget p db now
    → Fits
        (plus (count_llm_output_usage db now input.member_id input.club_id) input.max_output_tokens)
        (maxes_of p (p.daily_max llm_output_tokens))
    → WithinBudget p (insert_reservation db (reservation_row id now clock input)) now
unfolding count_llm_output_usage
insert-WithinBudget p db id now clock input w f = record {
  fits = λ m c. elim (Bool-cases (input.member_id == m && input.club_id == c)) [
    | inl same ↦ ground (arith, w.fits m c)
    | inr other ↦ ground (arith, w.fits m c)
  ];
}

finalize_row-le :
    (m c now interval reservation_id actual : ℕ) (r : LlmReservationRow)
    → (r.id ≡ reservation_id → (now < r.expires_at) × (actual ≤ r.reserved_output_tokens))
    → is_open reservation_id r ≡ true
    → units_of m c now interval (finalize_row actual r) ≤ units_of m c now interval r
finalize_row-le m c now interval reservation_id actual r h e =
    ground (arith, ==_iff r.id reservation_id, h)

finalize-WithinBudget :
    (p : QuotaPolicy) (db : QuotaDb) (now reservation_id actual : ℕ)
    → WithinBudget p db now
    → SettlesInTime db now reservation_id actual
    → WithinBudget p (finalize_llm_output_budget db reservation_id actual) now
unfolding count_llm_output_usage finalize_llm_output_budget
finalize-WithinBudget p db now reservation_id actual w h = record {
  fits = λ m c.
      let shrink = λ (interval : ℕ).
        sum_by-update_where-All (units_of m c now interval) (is_open reservation_id)
          (finalize_row actual) db.ai_llm_quota_reservations
          (All-map db.ai_llm_quota_reservations
            (finalize_row-le m c now interval reservation_id actual) h) in
      omega (arith, w.fits m c, shrink 86_400_000, shrink 604_800_000, shrink 2_592_000_000);
}

reserve-WithinBudget :
    (p : QuotaPolicy) (db : QuotaDb) (now id clock : ℕ) (input : ReserveInput)
    → WithinBudget p db now
    → WithinBudget p (after db (reserve_llm_output_budget p db id now clock input)) now
unfolding reserve_llm_output_budget
reserve-WithinBudget p db now id clock input w =
    let counts = count_llm_output_usage db now input.member_id input.club_id in
    let law =
      over_limit-eq-false_iff p llm_output_tokens (some input.club_id)
        (p.daily_max llm_output_tokens) counts input.max_output_tokens in
    elim (Bool-cases (
      over_limit
        (build_allowance p llm_output_tokens (some input.club_id) (p.daily_max llm_output_tokens)
          counts)
        input.max_output_tokens)) [
          | inl full ↦ rw full w
          | inr free ↦ rw free (insert-WithinBudget p db id now clock input w (law.0 free))
        ]

abbrev WithinAt : QuotaPolicy → QuotaDb × ℕ → Type 0
WithinAt p s = WithinBudget p s.0 s.1

BudgetStep-WithinBudget :
    (p : QuotaPolicy) {s t : QuotaDb × ℕ} → BudgetStep p s t → WithinAt p s → WithinAt p t
BudgetStep-WithinBudget p (wait db now ms) w = wait-WithinBudget p db now ms w
BudgetStep-WithinBudget p (reserve db now id clock input) w =
    reserve-WithinBudget p db now id clock input w
BudgetStep-WithinBudget p (finalize db now i actual h) w =
    finalize-WithinBudget p db now i actual w h

-- From a budget within its limits, no sequence of reservations, waits, and finalizations brings the
-- output tokens of a member in a club over a window maximum, if each finalization comes before its
-- reservation expires and with no more tokens than were reserved (the code does not clamp them).
pub BudgetRun-WithinBudget :
    (p : QuotaPolicy) {s t : QuotaDb × ℕ}
    → BudgetRun p s t
    → WithinBudget p s.0 s.1
    → WithinBudget p t.0 t.1
BudgetRun-WithinBudget p start w = w
BudgetRun-WithinBudget p (next r st) w = BudgetStep-WithinBudget p st (BudgetRun-WithinBudget p r w)
