-- ===== src/ClubSpend/Safety.antt =====
-- src/club-spend.ts: what a reservation does, and the budget of a club over any sequence of
-- operations.
use clawclub_server.Common.{
  ℕ, ◌+◌, ◌≤◌, ◌<◌, ◌≡◌, refl, ◌↔◌, inl, inr, Bool, true, false, Option, none, some, List, [], ◌∷◌,
  arith, ◌==◌, find, update_where, All, Result, ok, err, after, Bool-cases, ==_iff, sum_by_mono,
  sum_by-update_where-All, All-map, Result-cases,
}
use clawclub_server.Errors.{invalid_data, quota_exceeded}
use clawclub_server.Config.{PerWindow}
use clawclub_server.Quotas.Allowance.{Fits, plus}
use clawclub_server.ClubSpend.Ledger.{
  SpendReservationRow, Ledger, SpendPolicy, ReserveSpendInput, spend_row, max_safe_integer,
  get_club_spend_window_maxes_micro_cents, build_internal_club_spend_status, over_budget,
  serialize_club_spend_status, club_units, count_club_spend_usage, reserve_club_spend_budget,
}
use clawclub_server.ClubSpend.Settle.{
  ActualUsage, Actual, actual_of, is_open, settle_row, release_row, finalize_found, is_expired,
  finalize_club_spend_budget, release_club_spend_budget, sweep_expired_club_spend_reservations,
}

-- The window maxima are numbers that JavaScript represents.
abbrev pub IsRepresentable : PerWindow → Type 0
IsRepresentable m =
    (m.day ≤ max_safe_integer) × (m.week ≤ max_safe_integer) × (m.month ≤ max_safe_integer)

module _ (p : SpendPolicy) (club_id : ℕ) (counts : PerWindow) where
  over_budget-eq-false_iff :
      (reserve : ℕ)
      → (over_budget (build_internal_club_spend_status p club_id counts) reserve ≡ false)
        ↔ Fits (plus counts reserve) (get_club_spend_window_maxes_micro_cents p)
  unfolding over_budget build_internal_club_spend_status
  over_budget-eq-false_iff reserve = ground arith

  serialize-Fits :
      Fits counts (get_club_spend_window_maxes_micro_cents p)
      → IsRepresentable (get_club_spend_window_maxes_micro_cents p)
      → serialize_club_spend_status (build_internal_club_spend_status p club_id counts)
        ≡ ok (build_internal_club_spend_status p club_id counts)
  unfolding serialize_club_spend_status build_internal_club_spend_status
  serialize-Fits f r = ground arith

  serialize_unsafe :
      ¬ IsRepresentable (get_club_spend_window_maxes_micro_cents p)
      → serialize_club_spend_status (build_internal_club_spend_status p club_id counts)
        ≡ err invalid_data
  unfolding serialize_club_spend_status build_internal_club_spend_status
  serialize_unsafe r = ground arith

module _ (p : SpendPolicy) (rows : Ledger) (id now clock : ℕ) (input : ReserveSpendInput) where
  abbrev counts_before : PerWindow
  counts_before = count_club_spend_usage rows now input.club_id

  abbrev amount : ℕ
  amount = input.estimate.reserved_micro_cents

  -- A reservation passes exactly when it fits into the three windows of the club's budget. It then
  -- adds one pending row and reports the usage with the reservation in it, unless a window maximum is
  -- no safe integer: then the error is invalid_data. One that does not fit gives quota_exceeded.
  pub reserve_club_spend_budget_lem :
      let used = count_club_spend_usage rows now input.club_id in
      let maxes = get_club_spend_window_maxes_micro_cents p in
      let request = reserve_club_spend_budget p rows id now clock input in
      let reserve = input.estimate.reserved_micro_cents in
      (Fits (plus used reserve) maxes
        → IsRepresentable maxes
        → request
          ≡ ok (
            build_internal_club_spend_status p input.club_id (plus used reserve),
            spend_row id now clock input ∷ rows,
          ))
      × (Fits (plus used reserve) maxes → ¬ IsRepresentable maxes → request ≡ err invalid_data)
      × (¬ Fits (plus used reserve) maxes → request ≡ err quota_exceeded)
  unfolding reserve_club_spend_budget
  reserve_club_spend_budget_lem =
      let law = over_budget-eq-false_iff p input.club_id counts_before amount in
      (
        λ f r. rw (law.1 f) (rw (serialize-Fits p input.club_id (plus counts_before amount) f r)),
        λ f r. rw (law.1 f) (rw (serialize_unsafe p input.club_id (plus counts_before amount) r)),
        λ f. ground (arith, law),
      )

-- No window of the club has more reserved and spent than its maximum.
pub record WithinSpend (p : SpendPolicy) (rows : Ledger) (now : ℕ) : Type 0 where
  pub fits :
      (club_id : ℕ)
      → Fits (count_club_spend_usage rows now club_id) (get_club_spend_window_maxes_micro_cents p)

-- The reservation is finalized before it expires, at a cost of no more than it reserved.
abbrev pub SettlesInTime : Ledger → ℕ → ℕ → ActualUsage → Type 0
SettlesInTime rows now reservation_id usage =
    All
      (λ r.
        r.id ≡ reservation_id
        → (now < r.expires_at)
          × ((row : SpendReservationRow) (actual : Actual)
              → find (is_open reservation_id) rows ≡ some row
              → actual_of row.usage_kind row.model usage ≡ ok actual
              → actual.micro_cents ≤ r.reserved_micro_cents))
      rows

abbrev after_finalize : Ledger → Result Ledger → Ledger
after_finalize rows (ok rows') = rows'
after_finalize rows (err e) = rows

-- What happens to the reservations, at a time.
pub data SpendStep (p : SpendPolicy) : Ledger × ℕ → Ledger × ℕ → Type 0 where
  wait : (rows : Ledger) (now ms : ℕ) → SpendStep p (rows, now) (rows, now + ms)
  reserve :
      (rows : Ledger) (now id clock : ℕ) (input : ReserveSpendInput)
      → SpendStep p
          (rows, now)
          (after rows (reserve_club_spend_budget p rows id now clock input), now)
  finalize :
      (rows : Ledger) (now reservation_id : ℕ) (usage : ActualUsage)
      → SettlesInTime rows now reservation_id usage
      → SpendStep p
          (rows, now)
          (after_finalize rows (finalize_club_spend_budget rows now reservation_id usage), now)
  release :
      (rows : Ledger) (now reservation_id : ℕ)
      → SpendStep p (rows, now) (release_club_spend_budget rows now reservation_id, now)
  sweep :
      (rows : Ledger) (now : ℕ)
      → SpendStep p (rows, now) ((sweep_expired_club_spend_reservations rows now).0, now)

pub data SpendRun (p : SpendPolicy) (s : Ledger × ℕ) : Ledger × ℕ → Type 0 where
  start : SpendRun p s s
  next : {t u : Ledger × ℕ} → SpendRun p s t → SpendStep p t u → SpendRun p s u

club_units_mono :
    (c interval now later : ℕ) (r : SpendReservationRow)
    → now ≤ later
    → club_units c later interval r ≤ club_units c now interval r
club_units_mono c interval now later r h = ground arith

wait-WithinSpend :
    (p : SpendPolicy) (rows : Ledger) (now ms : ℕ)
    → WithinSpend p rows now
    → WithinSpend p rows (now + ms)
unfolding count_club_spend_usage
wait-WithinSpend p rows now ms w = record {
  fits = λ c.
      let shrink = λ (interval : ℕ).
        sum_by_mono (club_units c (now + ms) interval) (club_units c now interval) rows
          (λ r. club_units_mono c interval now (now + ms) r (omega arith)) in
      omega (arith, w.fits c, shrink 86_400_000, shrink 604_800_000, shrink 2_592_000_000);
}

insert-WithinSpend :
    (p : SpendPolicy) (rows : Ledger) (id now clock : ℕ) (input : ReserveSpendInput)
    → WithinSpend p rows now
    → Fits
        (plus (count_club_spend_usage rows now input.club_id) input.estimate.reserved_micro_cents)
        (get_club_spend_window_maxes_micro_cents p)
    → WithinSpend p (spend_row id now clock input ∷ rows) now
unfolding count_club_spend_usage
insert-WithinSpend p rows id now clock input w f = record {
  fits = λ c. elim (Bool-cases (input.club_id == c)) [
    | inl same ↦ ground (arith, w.fits c, ==_iff input.club_id c)
    | inr other ↦ ground (arith, w.fits c)
  ];
}

reserve-WithinSpend :
    (p : SpendPolicy) (rows : Ledger) (now id clock : ℕ) (input : ReserveSpendInput)
    → WithinSpend p rows now
    → WithinSpend p (after rows (reserve_club_spend_budget p rows id now clock input)) now
unfolding reserve_club_spend_budget
reserve-WithinSpend p rows now id clock input w =
    let counts = count_club_spend_usage rows now input.club_id in
    let amount = input.estimate.reserved_micro_cents in
    let status = build_internal_club_spend_status p input.club_id in
    elim (Bool-cases (over_budget (status counts) amount)) [
      | inl full ↦ rw full w
      | inr free ↦ elim (Result-cases (serialize_club_spend_status (status (plus counts amount)))) [
        | inl (budget, e) ↦
            rw (free, e)
              (insert-WithinSpend p rows id now clock input w
                ((over_budget-eq-false_iff p input.club_id counts amount).0 free))
        | inr (code, e) ↦ rw (free, e) w
      ]
    ]

-- An update that raises no row's share.
update-WithinSpend :
    (p : SpendPolicy) (rows : Ledger) (now : ℕ) (q : SpendReservationRow → Bool)
    (g : SpendReservationRow → SpendReservationRow)
    → WithinSpend p rows now
    → ((c interval : ℕ)
        → All
            (λ r. q r ≡ true → club_units c now interval (g r) ≤ club_units c now interval r)
            rows)
    → WithinSpend p (update_where q g rows) now
unfolding count_club_spend_usage
update-WithinSpend p rows now q g w h = record {
  fits = λ c.
      let shrink = λ (interval : ℕ).
        sum_by-update_where-All (club_units c now interval) q g rows (h c interval) in
      omega (arith, w.fits c, shrink 86_400_000, shrink 604_800_000, shrink 2_592_000_000);
}

settle_row-le :
    (c now interval reservation_id : ℕ) (actual : Actual) (r : SpendReservationRow)
    → now < r.expires_at
    → actual.micro_cents ≤ r.reserved_micro_cents
    → is_open reservation_id r ≡ true
    → club_units c now interval (settle_row now actual r) ≤ club_units c now interval r
settle_row-le c now interval reservation_id actual r h k e = ground arith

release_row-le :
    (c now interval : ℕ) (r : SpendReservationRow)
    → club_units c now interval (release_row now r) ≤ club_units c now interval r
release_row-le c now interval r = ground arith

id_of_open :
    (reservation_id : ℕ) (r : SpendReservationRow)
    → is_open reservation_id r ≡ true
    → r.id ≡ reservation_id
id_of_open reservation_id r h = ground (arith, ==_iff r.id reservation_id)

finalize_found-WithinSpend :
    (p : SpendPolicy) (rows : Ledger) (now reservation_id : ℕ) (usage : ActualUsage)
    (found : Option SpendReservationRow)
    → find (is_open reservation_id) rows ≡ found
    → WithinSpend p rows now
    → SettlesInTime rows now reservation_id usage
    → WithinSpend p (after_finalize rows (finalize_found rows now reservation_id usage found)) now
finalize_found-WithinSpend p rows now i usage none e w h = w
finalize_found-WithinSpend p rows now i usage (some row) e w h =
    elim (Result-cases (actual_of row.usage_kind row.model usage)) [
      | inl (actual, a) ↦ rw a (
          update-WithinSpend p rows now (is_open i) (settle_row now actual) w λ c interval.
            All-map rows
              (λ r k o.
                let (before, fits) = k (id_of_open i r o) in
                settle_row-le c now interval i actual r before (fits row actual e a) o)
              h)
      | inr (code, a) ↦ rw a w
    ]

All-every {ℓ κ} : {A : Type ℓ} {P : A → Type κ} (xs : List A) → ((a : A) → P a) → All P xs
All-every [] h = tt
All-every (x ∷ xs) h = (h x, All-every xs h)

abbrev WithinAt : SpendPolicy → Ledger × ℕ → Type 0
WithinAt p s = WithinSpend p s.0 s.1

SpendStep-WithinSpend :
    (p : SpendPolicy) {s t : Ledger × ℕ} → SpendStep p s t → WithinAt p s → WithinAt p t
unfolding finalize_club_spend_budget release_club_spend_budget sweep_expired_club_spend_reservations
SpendStep-WithinSpend p (wait rows now ms) w = wait-WithinSpend p rows now ms w
SpendStep-WithinSpend p (reserve rows now id clock input) w =
    reserve-WithinSpend p rows now id clock input w
SpendStep-WithinSpend p (finalize rows now i usage h) w =
    finalize_found-WithinSpend p rows now i usage (find (is_open i) rows) refl w h
SpendStep-WithinSpend p (release rows now i) w =
    update-WithinSpend p rows now (is_open i) (release_row now) w
      (λ c interval. All-every rows (λ r _. release_row-le c now interval r))
SpendStep-WithinSpend p (sweep rows now) w =
    update-WithinSpend p rows now (is_expired now) (release_row now) w
      (λ c interval. All-every rows (λ r _. release_row-le c now interval r))

-- From a budget within its limits, no sequence of reservations, waits, releases, sweeps, and
-- finalizations brings what a club has reserved and spent over a window maximum, if each finalization
-- comes before its reservation expires and at a cost of no more than it reserved (above that the code
-- only warns).
pub SpendRun-WithinSpend :
    (p : SpendPolicy) {s t : Ledger × ℕ}
    → SpendRun p s t
    → WithinSpend p s.0 s.1
    → WithinSpend p t.0 t.1
SpendRun-WithinSpend p start w = w
SpendRun-WithinSpend p (next r st) w = SpendStep-WithinSpend p st (SpendRun-WithinSpend p r w)
