-- ===== src/Quotas/Tests.antt =====
-- Runs of the quotas (src/quotas.ts) on small tables.
use clawclub_server.Common.{◌≡◌, refl, none, some, [], ◌∷◌, arith, true, ok, after}
use clawclub_server.Config.{PerWindow, derive_quota_window_maxes}
use clawclub_server.Quotas.Allowance.{
  llm_output_tokens, embedding_query, QuotaPolicy, build_allowance, exceeded_window, at_limit, plus,
}
use clawclub_server.Quotas.Usage.{QuotaDb, count_quota_event_usage, count_llm_output_usage}
use clawclub_server.Quotas.Enforce.{
  EnforceInput, enforce_action_quota, enforce_action_quota_logged, log_event,
}
use clawclub_server.Quotas.Rolling.{serve, WithinQuotas, serve-WithinQuotas}
use clawclub_server.Quotas.Reserve.{
  ReserveInput, reserve_llm_output_budget, finalize_llm_output_budget, reservation_row,
  insert_reservation, reserve_llm_output_budget_lem, WithinBudget, BudgetRun, start, next, wait,
  reserve, finalize, BudgetRun-WithinBudget,
}

-- Three a week, six a month, for one a day; 1000 output tokens a day.
abbrev policy : QuotaPolicy
policy = record {
  window_multipliers = record {
    week = record { numerator = 3; denominator = 1 };
    month = record { numerator = 6; denominator = 1 };
  };
  role_multipliers = record { member = 1; clubadmin = 2; club_owner = 3 };
  daily_max = λ a. elim a [ llm_output_tokens ↦ 1000 | _ ↦ 1 ];
  club_overrides = [];
}

abbrev empty : QuotaDb
empty = record {
  contents = [];
  dm_messages = [];
  ai_quota_event_log = [];
  ai_llm_quota_reservations = [];
  clubs = [];
  accessible_club_memberships = [];
}

abbrev query : EnforceInput
query = record { action = embedding_query; member_id = 7; club_id = none; actor_info = none }

enforce_action_quota_logged_example :
    enforce_action_quota policy empty 5 query
    ≡ ok (
      build_allowance policy embedding_query none 1
          (count_quota_event_usage empty 5 7 embedding_query),
      log_event empty 5 embedding_query 7,
    )
unfolding count_quota_event_usage derive_quota_window_maxes
enforce_action_quota_logged_example =
    (enforce_action_quota_logged policy empty 5 embedding_query 7 none none refl).0 (ground arith)

empty-WithinQuotas : WithinQuotas policy empty 5
unfolding count_quota_event_usage
empty-WithinQuotas = record { fits = λ m a h. ground arith }

serve-WithinQuotas_example :
    let (db, later) =
      serve policy empty 5
        (record { wait = 1; input = query } ∷ record { wait = 2; input = query } ∷ []) in
    WithinQuotas policy db later
serve-WithinQuotas_example =
    serve-WithinQuotas policy empty 5
      (record { wait = 1; input = query } ∷ record { wait = 2; input = query } ∷ [])
      empty-WithinQuotas

abbrev gate_call : ReserveInput
gate_call = record { member_id = 7; club_id = 3; max_output_tokens = 400 }

-- One pending reservation.
abbrev reserved : QuotaDb
reserved = insert_reservation empty (reservation_row 1 5 5 gate_call)

reserve_llm_output_budget_example :
    reserve_llm_output_budget policy empty 1 5 5 gate_call
    ≡ ok (
      build_allowance policy llm_output_tokens
          (some 3)
          1000
          (plus (count_llm_output_usage empty 5 7 3) 400),
      reserved,
    )
unfolding count_llm_output_usage derive_quota_window_maxes
reserve_llm_output_budget_example =
    (reserve_llm_output_budget_lem policy empty 1 5 5 gate_call).0 (ground arith)

empty-WithinBudget : WithinBudget policy empty 5
unfolding count_llm_output_usage
empty-WithinBudget = record { fits = λ m c. ground arith }

-- A reservation, a wait, and the finalization in time.
gate_run :
    BudgetRun policy
      (empty, 5)
      (
        finalize_llm_output_budget
            (after empty (reserve_llm_output_budget policy empty 1 5 5 gate_call))
            1
            120,
        9,
      )
unfolding reserve_llm_output_budget count_llm_output_usage derive_quota_window_maxes
gate_run =
    next (next (next start (reserve empty 5 1 5 gate_call)) (wait _ 5 4))
      (finalize _ 9 1 120 (ground arith))

BudgetRun-WithinBudget_example :
    WithinBudget policy
      (finalize_llm_output_budget
        (after empty (reserve_llm_output_budget policy empty 1 5 5 gate_call))
        1
        120)
      9
BudgetRun-WithinBudget_example = BudgetRun-WithinBudget policy gate_run empty-WithinBudget

-- Three requests of three.
abbrev spent : PerWindow
spent = record { day = 1; week = 3; month = 6 }

-- The next request is refused, with an error that names no window.
refused_by_no_window :
    (at_limit (build_allowance policy embedding_query none 1 spent) ≡ true)
    × (exceeded_window (build_allowance policy embedding_query none 1 spent) 0 ≡ none)
unfolding at_limit exceeded_window build_allowance derive_quota_window_maxes
refused_by_no_window = (refl, refl)
