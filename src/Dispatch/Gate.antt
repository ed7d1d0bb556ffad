-- ===== src/Dispatch/Gate.antt =====
-- src/dispatch.ts: `runLlmGateFor`, the content gate under its two budgets; src/gate-results.ts: the
-- errors of the verdicts. The answers of the calls in one run are the fields of `GateRun`.
use clawclub_server.Common.{
  ℕ, Bool, true, false, not, ◌&&◌, Option, none, some, if◌then◌else◌, Result, ok, err, guard,
}
use clawclub_server.Errors.{
  ErrorCode, invalid_data, illegal_content, low_quality_content, gate_rejected, gate_unavailable,
}
use clawclub_server.Dispatch.Exec.{
  reserved_spend, released_spend, finalized_spend, reserved_output, finalized_output, ran_gate,
  logged_usage, stored_terminal_error, Exec, pure, throw, lift, call, safely, settle_call,
  safely_settle, ◌>>=◌, ◌>>◌, rethrowing,
}

pub data GateVerdict : Type 0 where
  passed rejected_illegal rejected_quality rejected_malformed :
      (prompt_tokens completion_tokens : ℕ) → GateVerdict
  skipped failed : GateVerdict

unfoldable pub gate_verdict_to_app_error : GateVerdict → Option ErrorCode
gate_verdict_to_app_error (passed p c) = none
gate_verdict_to_app_error (rejected_illegal p c) = some illegal_content
gate_verdict_to_app_error (rejected_quality p c) = some low_quality_content
gate_verdict_to_app_error (rejected_malformed p c) = some gate_rejected
gate_verdict_to_app_error skipped = some gate_unavailable
gate_verdict_to_app_error failed = some gate_unavailable

-- What the calls of one run answer. The two lookups answer `none` and `false` where the repository
-- lacks them.
pub record GateRun : Type 0 where
  pub has_gate : Bool
  pub has_actor : Bool
  -- `def.idempotency` and its client key are there
  pub has_client_key : Bool
  pub terminal_error : Result (Option ErrorCode)
  pub replay_hit : Result Bool
  pub can_store_terminal_error : Bool
  pub should_skip : Result Bool
  -- `buildArtifact`, and whether the artifact has too little text
  pub low_substance : Result Bool
  -- `resolveBudgetClubId`, or else the club that the request names
  pub has_budget_club : Result Bool
  pub has_output_budget : Bool
  pub has_spend_budget : Bool
  pub spend_reservation : Result ℕ
  pub output_reservation : Result ℕ
  pub verdict : Result GateVerdict
  pub spend_finalized : Result (Unit {0})
  pub spend_released : Result (Unit {0})
  pub output_finalized : Result (Unit {0})

abbrev pub is_terminal : ErrorCode → Bool
is_terminal illegal_content = true
is_terminal low_quality_content = true
is_terminal gate_rejected = true
is_terminal _ = false

abbrev pub found_terminal : Option ErrorCode → Exec (Unit {0})
found_terminal none = pure tt
found_terminal (some e) = throw e

unfoldable pub idempotency_replay : GateRun → Exec Bool
idempotency_replay run =
    if run.has_client_key
    then (lift run.terminal_error >>= λ t. found_terminal t >> lift run.replay_hit)
    else pure false

unfoldable pub store_terminal_gate_error : GateRun → ErrorCode → Exec (Unit {0})
store_terminal_gate_error run e =
    if run.can_store_terminal_error && is_terminal e && run.has_client_key
    then safely (stored_terminal_error e)
    else pure tt

abbrev pub settle_spend : GateRun → ℕ → GateVerdict → Exec (Unit {0})
settle_spend run id (passed p c) = settle_call (finalized_spend id p c) run.spend_finalized
settle_spend run id (rejected_illegal p c) =
    settle_call (finalized_spend id p c) run.spend_finalized
settle_spend run id (rejected_quality p c) =
    settle_call (finalized_spend id p c) run.spend_finalized
settle_spend run id (rejected_malformed p c) =
    settle_call (finalized_spend id p c) run.spend_finalized
settle_spend run id skipped = safely_settle (released_spend id) run.spend_released
settle_spend run id failed = safely_settle (released_spend id) run.spend_released

abbrev pub completion_tokens : GateVerdict → ℕ
completion_tokens (passed p c) = c
completion_tokens (rejected_illegal p c) = c
completion_tokens (rejected_quality p c) = c
completion_tokens (rejected_malformed p c) = c
completion_tokens skipped = 0
completion_tokens failed = 0

abbrev pub throw_verdict : GateRun → Option ErrorCode → Exec (Unit {0})
throw_verdict run none = pure tt
throw_verdict run (some e) = store_terminal_gate_error run e >> throw e

-- Once the spend is settled: the output budget, the usage log, the error of the verdict.
abbrev pub settle_output : GateRun → ℕ → GateVerdict → Exec (Unit {0})
settle_output run output_id v = do
  settle_call (finalized_output output_id (completion_tokens v)) run.output_finalized
  safely logged_usage
  throw_verdict run (gate_verdict_to_app_error v)

-- Everything after the verdict.
unfoldable pub settle_gate : GateRun → ℕ → ℕ → GateVerdict → Exec (Unit {0})
settle_gate run spend_id output_id v = do settle_spend run spend_id v; settle_output run output_id v

-- A reservation that is refused leaves nothing behind.
abbrev pub reserve_spend : Result ℕ → Exec ℕ
reserve_spend (ok id) = call (reserved_spend id) (ok id)
reserve_spend (err e) = throw e

abbrev pub reserve_output : Result ℕ → Exec ℕ
reserve_output (ok id) = call (reserved_output id) (ok id)
reserve_output (err e) = throw e

-- The two reservations, the call of the gate, and what settles the reservations.
unfoldable pub run_budgeted_gate : GateRun → Exec (Unit {0})
run_budgeted_gate run = do
  spend_id ← reserve_spend run.spend_reservation
  output_id ←
      rethrowing (reserve_output run.output_reservation)
        (safely_settle (released_spend spend_id) run.spend_released)
  v ← rethrowing (call ran_gate run.verdict) (
      safely_settle (released_spend spend_id) run.spend_released
      >> safely_settle (finalized_output output_id 0) run.output_finalized)
  settle_gate run spend_id output_id v

-- The content of a request that is neither replayed nor exempt.
unfoldable pub gate_artifact : GateRun → Exec (Unit {0})
unfolding store_terminal_gate_error
gate_artifact run = do
  low ← lift run.low_substance
  if low then store_terminal_gate_error run low_quality_content >> throw low_quality_content else do
    club ← lift run.has_budget_club
    lift (guard club invalid_data)
    lift (guard run.has_output_budget invalid_data)
    lift (guard run.has_spend_budget invalid_data)
    run_budgeted_gate run

unfoldable pub run_llm_gate_for : GateRun → Exec (Unit {0})
unfolding idempotency_replay
run_llm_gate_for run = if not run.has_gate then pure tt else do
  lift (guard run.has_actor invalid_data)
  replayed ← idempotency_replay run
  if replayed
      then pure tt
      else do skip ← lift run.should_skip; if skip then pure tt else gate_artifact run
