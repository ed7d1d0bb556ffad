-- ===== src/ClubSpend/Tests.antt =====
-- Runs of the spend budgets of clubs (src/club-spend.ts) on small ledgers.
use clawclub_server.Common.{◌≤◌, ◌≡◌, refl, some, [], ◌∷◌, arith, ok, after}
use clawclub_server.Config.{derive_quota_window_maxes}
use clawclub_server.Quotas.Allowance.{plus}
use clawclub_server.ClubSpend.Pricing.{
  gate, estimate_tokens_from_text, estimate_gate_spend, compute_gate_actual_micro_cents,
  compute_gate_actual-le-reserved,
}
use clawclub_server.ClubSpend.Ledger.{
  Ledger, SpendPolicy, ReserveSpendInput, reserve_club_spend_budget, spend_row,
  build_internal_club_spend_status, count_club_spend_usage, get_club_spend_window_maxes_micro_cents,
  get_club_spend_budget_policy,
}
use clawclub_server.ClubSpend.Settle.{
  gate_usage, finalize_club_spend_budget, release_club_spend_budget,
  sweep_expired_club_spend_reservations, actual_of, openai_model, count_club_spend_usage-sweep,
  finalize_settles, release_settles,
}
use clawclub_server.ClubSpend.Safety.{
  WithinSpend, SpendRun, start, next, wait, reserve, sweep, reserve_club_spend_budget_lem,
  SpendRun-WithinSpend,
}

-- A dollar a day.
abbrev policy : SpendPolicy
policy = record {
  daily_max_cents = 100;
  window_multipliers = record {
    week = record { numerator = 3; denominator = 1 };
    month = record { numerator = 6; denominator = 1 };
  };
}

abbrev gate_call : ReserveSpendInput
gate_call = record {
  club_id = 3;
  member_id = some 7;
  action_name = "content.create";
  provider = "openai";
  model = openai_model;
  usage_kind = gate;
  estimate = record {
    usage_kind = gate;
    reserved_micro_cents = 50_000;
    reserved_input_tokens_estimate = 300;
    reserved_output_tokens = 64;
  };
}

-- One pending reservation.
abbrev reserved : Ledger
reserved = spend_row 1 5 5 gate_call ∷ []

compute_gate_actual-le-reserved_example :
    compute_gate_actual_micro_cents 2 64
    ≤ (estimate_gate_spend (104 ∷ 105 ∷ []) (104 ∷ 105 ∷ []) 64).reserved_micro_cents
unfolding estimate_gate_spend estimate_tokens_from_text
compute_gate_actual-le-reserved_example =
    compute_gate_actual-le-reserved (104 ∷ 105 ∷ []) (104 ∷ 105 ∷ []) 64 2 64 (omega arith)
      (ground arith)

count_club_spend_usage-sweep_example :
    count_club_spend_usage (sweep_expired_club_spend_reservations reserved 700_000).0 700_001 3
    ≡ count_club_spend_usage reserved 700_001 3
count_club_spend_usage-sweep_example =
    count_club_spend_usage-sweep reserved 700_000 700_001 3 (omega arith)

finalized_ledger :
    (rows : Ledger) × (finalize_club_spend_budget reserved 9 1 (gate_usage 300 64) ≡ ok rows)
unfolding finalize_club_spend_budget actual_of
finalized_ledger = (_, refl)

finalize_settles_example :
    (finalize_club_spend_budget finalized_ledger.0 12 1 (gate_usage 1 1) ≡ ok finalized_ledger.0)
    × (release_club_spend_budget finalized_ledger.0 12 1 ≡ finalized_ledger.0)
finalize_settles_example =
    finalize_settles reserved finalized_ledger.0 9 1 (gate_usage 300 64) finalized_ledger.1 12
      (gate_usage 1 1)

release_settles_example :
    let rows = release_club_spend_budget reserved 9 1 in
    (finalize_club_spend_budget rows 12 1 (gate_usage 1 1) ≡ ok rows)
    × (release_club_spend_budget rows 12 1 ≡ rows)
release_settles_example = release_settles reserved 9 1 12 (gate_usage 1 1)

reserve_club_spend_budget_example :
    reserve_club_spend_budget policy [] 1 5 5 gate_call
    ≡ ok (
      build_internal_club_spend_status policy 3 (plus (count_club_spend_usage [] 5 3) 50_000),
      reserved,
    )
unfolding count_club_spend_usage get_club_spend_window_maxes_micro_cents
    get_club_spend_budget_policy derive_quota_window_maxes
reserve_club_spend_budget_example =
    (reserve_club_spend_budget_lem policy [] 1 5 5 gate_call).0 (ground arith) (ground arith)

empty-WithinSpend : WithinSpend policy [] 5
unfolding count_club_spend_usage
empty-WithinSpend = record { fits = λ c. ground arith }

-- A reservation, a wait, and a sweep once it has expired.
abandoned_run :
    SpendRun policy
      ([], 5)
      (
        (sweep_expired_club_spend_reservations
            (after [] (reserve_club_spend_budget policy [] 1 5 5 gate_call))
            700_005).0,
        700_005,
      )
abandoned_run =
    next (next (next start (reserve [] 5 1 5 gate_call)) (wait _ 5 700_000)) (sweep _ 700_005)

SpendRun-WithinSpend_example :
    WithinSpend policy
      (sweep_expired_club_spend_reservations
        (after [] (reserve_club_spend_budget policy [] 1 5 5 gate_call))
        700_005).0
      700_005
SpendRun-WithinSpend_example = SpendRun-WithinSpend policy abandoned_run empty-WithinSpend
