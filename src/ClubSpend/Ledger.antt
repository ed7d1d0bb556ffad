-- ===== src/ClubSpend/Ledger.antt =====
-- src/club-spend.ts: the reservations of a club and the operations on them.
use clawclub_server.Common.{
  String, ℕ, ◌+◌, ◌-◌, ◌*◌, ◌/◌, Bool, not, ◌&&◌, Option, none, some, List, [], ◌∷◌, ltb, leb, ◌==◌,
  if◌then◌else◌, sum_by, find, any, Result, ok, ◌>>=◌, ◌>>◌, guard,
}
use clawclub_server.Errors.{invalid_data, quota_exceeded}
use clawclub_server.Config.{PerWindow, WindowMultipliers, derive_quota_window_maxes}
use clawclub_server.Quotas.Allowance.{QuotaWindowName, day, week, month, plus}
use clawclub_server.Quotas.Usage.{ReservationStatus, pending, per_window, within, reservation_value}
use clawclub_server.ClubSpend.Pricing.{UsageKind, SpendEstimate, micro_cents_per_cent}

-- const CLUB_SPEND_RESERVATION_TTL_MS = 10 * 60 * 1000
abbrev pub reservation_ttl_ms : ℕ
reservation_ttl_ms = 600_000

abbrev pub max_safe_integer : ℕ
max_safe_integer = 9_007_199_254_740_991

pub record SpendReservationRow : Type 0 where
  pub id : ℕ
  pub club_id : ℕ
  pub member_id : Option ℕ
  pub action_name : String
  pub usage_kind : UsageKind
  pub provider : String
  pub model : String
  pub status : ReservationStatus
  pub reserved_micro_cents : ℕ
  pub actual_micro_cents : Option ℕ
  pub reserved_input_tokens_estimate : ℕ
  pub reserved_output_tokens : ℕ
  pub actual_prompt_tokens : Option ℕ
  pub actual_completion_tokens : Option ℕ
  pub actual_embedding_tokens : Option ℕ
  pub created_at : ℕ
  pub expires_at : ℕ
  pub finalized_at : Option ℕ

-- The table `ai_club_spend_reservations`.
abbrev pub Ledger : Type 0
Ledger = List SpendReservationRow

-- The part of the instance config that bounds the spending of a club.
pub record SpendPolicy : Type 0 where
  pub daily_max_cents : ℕ
  pub window_multipliers : WindowMultipliers

pub record SpendWindowUsage : Type 0 where
  pub window : QuotaWindowName
  pub max_micro_cents : ℕ
  pub used_micro_cents : ℕ
  pub remaining_micro_cents : ℕ

pub record SpendBudgetStatus : Type 0 where
  pub club_id : ℕ
  pub windows : List SpendWindowUsage

-- `getClubSpendBudgetPolicy`, in cents.
unfoldable pub get_club_spend_budget_policy : SpendPolicy → PerWindow
get_club_spend_budget_policy p = derive_quota_window_maxes p.daily_max_cents p.window_multipliers

unfoldable pub get_club_spend_window_maxes_micro_cents : SpendPolicy → PerWindow
unfolding get_club_spend_budget_policy
get_club_spend_window_maxes_micro_cents p =
    let cents = get_club_spend_budget_policy p in
    record {
      day = cents.day * micro_cents_per_cent;
      week = cents.week * micro_cents_per_cent;
      month = cents.month * micro_cents_per_cent;
    }

-- `maxes > counts ? maxes - counts : 0n` is the subtraction of ℕ.
abbrev spend_window : QuotaWindowName → ℕ → ℕ → SpendWindowUsage
spend_window w m u = record {
  window = w;
  max_micro_cents = m;
  used_micro_cents = u;
  remaining_micro_cents = m - u;
}

unfoldable pub build_internal_club_spend_status : SpendPolicy → ℕ → PerWindow → SpendBudgetStatus
build_internal_club_spend_status p club_id counts =
    let maxes = get_club_spend_window_maxes_micro_cents p in
    record {
      club_id = club_id;
      windows =
          spend_window day maxes.day counts.day
          ∷ spend_window week maxes.week counts.week
          ∷ spend_window month maxes.month counts.month
          ∷ [];
    }

-- status.windows.some((window) => window.usedMicroCents + reserve > window.maxMicroCents)
unfoldable pub over_budget : SpendBudgetStatus → ℕ → Bool
over_budget s reserve = any (λ w. ltb w.max_micro_cents (w.used_micro_cents + reserve)) s.windows

-- The window that the message of `clubSpendExceededError` names, with its budget in cents.
unfoldable pub spend_exceeded_window : SpendBudgetStatus → ℕ → Option (QuotaWindowName × ℕ)
spend_exceeded_window s reserve =
    elim (find (λ w. ltb w.max_micro_cents (w.used_micro_cents + reserve)) s.windows) [
      | none ↦ none
      | some w ↦ some (w.window, w.max_micro_cents / micro_cents_per_cent)
    ]

abbrev pub is_safe : SpendWindowUsage → Bool
is_safe w =
    leb w.max_micro_cents max_safe_integer
    && leb w.used_micro_cents max_safe_integer
    && leb w.remaining_micro_cents max_safe_integer

-- `microCentsToSafeNumber` keeps a number that JavaScript represents, and throws at any other.
unfoldable pub serialize_windows : List SpendWindowUsage → Result (List SpendWindowUsage)
serialize_windows [] = ok []
serialize_windows (w ∷ ws) = do
  guard (is_safe w) invalid_data
  rest ← serialize_windows ws
  ok (w ∷ rest)

unfoldable pub serialize_club_spend_status : SpendBudgetStatus → Result SpendBudgetStatus
unfolding serialize_windows
serialize_club_spend_status s = do
  windows ← serialize_windows s.windows
  ok (record { club_id = s.club_id; windows = windows })

abbrev pub spend_units : ℕ → ℕ → SpendReservationRow → ℕ
spend_units now interval r =
    within interval now r.created_at
      (reservation_value r.status now r.expires_at r.reserved_micro_cents r.actual_micro_cents)

-- What a row adds to the usage of a club.
abbrev pub club_units : ℕ → ℕ → ℕ → SpendReservationRow → ℕ
club_units club_id now interval r = if r.club_id == club_id then spend_units now interval r else 0

unfoldable pub count_club_spend_usage : Ledger → ℕ → ℕ → PerWindow
count_club_spend_usage rows now club_id =
    per_window λ interval. sum_by (club_units club_id now interval) rows

unfoldable pub get_club_spend_budget_status :
    SpendPolicy → Ledger → ℕ → ℕ → Result SpendBudgetStatus
unfolding build_internal_club_spend_status serialize_club_spend_status
get_club_spend_budget_status p rows now club_id =
    serialize_club_spend_status
      (build_internal_club_spend_status p club_id (count_club_spend_usage rows now club_id))

pub record ReserveSpendInput : Type 0 where
  pub club_id : ℕ
  pub member_id : Option ℕ
  pub action_name : String
  pub provider : String
  pub model : String
  pub usage_kind : UsageKind
  pub estimate : SpendEstimate

-- The row that is inserted; `id` is the identifier that the database makes.
abbrev pub spend_row : ℕ → ℕ → ℕ → ReserveSpendInput → SpendReservationRow
spend_row id now clock input = record {
  id = id;
  club_id = input.club_id;
  member_id = input.member_id;
  action_name = input.action_name;
  usage_kind = input.usage_kind;
  provider = input.provider;
  model = input.model;
  status = pending;
  reserved_micro_cents = input.estimate.reserved_micro_cents;
  actual_micro_cents = none;
  reserved_input_tokens_estimate = input.estimate.reserved_input_tokens_estimate;
  reserved_output_tokens = input.estimate.reserved_output_tokens;
  actual_prompt_tokens = none;
  actual_completion_tokens = none;
  actual_embedding_tokens = none;
  created_at = now;
  expires_at = clock + reservation_ttl_ms;
  finalized_at = none;
}

unfoldable pub reserve_club_spend_budget :
    SpendPolicy → Ledger → ℕ → ℕ → ℕ → ReserveSpendInput → Result (SpendBudgetStatus × Ledger)
reserve_club_spend_budget p rows id now clock input = do
  let counts = count_club_spend_usage rows now input.club_id
  let reserve = input.estimate.reserved_micro_cents
  guard (not (over_budget (build_internal_club_spend_status p input.club_id counts) reserve))
      quota_exceeded
  budget ←
      serialize_club_spend_status
        (build_internal_club_spend_status p input.club_id (plus counts reserve))
  ok (budget, spend_row id now clock input ∷ rows)
