-- ===== src/Dispatch/Settled.antt =====
-- What the content gate of src/dispatch.ts (`runLlmGateFor`) does to the two budgets, whatever its calls
-- answer.
use clawclub_server.Common.{
  ℕ, ◌≡◌, refl, inl, inr, Bool, false, List, [], ◌∷◌, arith, ◌==◌, count_by, Result, ok, err,
  Result-cases,
}
use clawclub_server.Dispatch.Exec.{
  Effect, reserved_spend, released_spend, finalized_spend, reserved_output, finalized_output,
  ran_gate, logged_usage, call, safely, answered, settle_call,
}
use clawclub_server.Dispatch.Gate.{
  GateVerdict, passed, rejected_illegal, rejected_quality, rejected_malformed, skipped, failed,
  gate_verdict_to_app_error, GateRun, settle_spend, settle_output, completion_tokens, settle_gate,
  run_budgeted_gate, run_llm_gate_for,
}
use clawclub_server.Dispatch.Pays.{
  one_if, Pays, Pays-bind, Pays-call, Pays-settle_call, Pays-throw_verdict, Pays-run_llm_gate_for,
}
use clawclub_server.Dispatch.SpendCounts.{
  reserves_spend, settles_spend, asks_spend, reserves_output, settles_output, answered_ok,
  asks-CountsSpend, settles-CountsSpend, run_llm_gate_for-counts,
}

-- A settling call is not about the reservation of the output tokens.
NotOutput : Effect → Type 0
NotOutput e = (id : ℕ) → (reserves_output id e ≡ false) × (settles_output id e ≡ false)

released-NotOutput : (r : Result (Unit {0})) (s : ℕ) → NotOutput (answered r (released_spend s))
unfolding NotOutput reserves_output settles_output answered
released-NotOutput (ok u) s id = (refl, refl)
released-NotOutput (err x) s id = (refl, refl)

-- The settling of the spend, where it does not fail, is one such call.
settle_spend-one_call :
    (run : GateRun) (s : ℕ) (v : GateVerdict)
    → run.spend_finalized ≡ ok tt
    → (e : Effect) × (settle_spend run s v ≡ call e (ok tt)) × NotOutput e
unfolding NotOutput reserves_output settles_output answered
settle_spend-one_call run s (passed p c) h = (finalized_spend s p c, rw h refl, λ id. (refl, refl))
settle_spend-one_call run s (rejected_illegal p c) h =
    (finalized_spend s p c, rw h refl, λ id. (refl, refl))
settle_spend-one_call run s (rejected_quality p c) h =
    (finalized_spend s p c, rw h refl, λ id. (refl, refl))
settle_spend-one_call run s (rejected_malformed p c) h =
    (finalized_spend s p c, rw h refl, λ id. (refl, refl))
settle_spend-one_call run s skipped h =
    (answered run.spend_released (released_spend s), refl, released-NotOutput run.spend_released s)
settle_spend-one_call run s failed h =
    (answered run.spend_released (released_spend s), refl, released-NotOutput run.spend_released s)

module _ (run : GateRun) (id : ℕ) (output_finalized : run.output_finalized ≡ ok tt) where
  output_recorded :
      (o t : ℕ)
      → (reserves_output id (answered run.output_finalized (finalized_output o t)) ≡ false)
        × (settles_output id (answered run.output_finalized (finalized_output o t)) ≡ (o == id))
  unfolding reserves_output settles_output
  output_recorded o t =
      rw (answered_ok run.output_finalized (finalized_output o t) output_finalized) (refl, refl)

  settle_output-Pays_output :
      (o : ℕ) (v : GateVerdict)
      → Pays (reserves_output id) (settles_output id) (one_if (o == id)) (settle_output run o v)
  unfolding reserves_output settles_output
  settle_output-Pays_output o v =
      let (unreserved, paid) = output_recorded o (completion_tokens v) in
      Pays-bind (reserves_output id) (settles_output id) (one_if (o == id))
        (settle_call (finalized_output o (completion_tokens v)) run.output_finalized) _
        (Pays-settle_call (reserves_output id) (settles_output id)
          (finalized_output o (completion_tokens v)) run.output_finalized unreserved paid)
        (λ _.
          Pays-bind (reserves_output id) (settles_output id) 0 (safely logged_usage) _
            (Pays-call (reserves_output id) (settles_output id) logged_usage (ok tt) refl refl)
            (λ _.
              Pays-throw_verdict (reserves_output id) (settles_output id) (λ e. refl) (λ e. refl)
                run (gate_verdict_to_app_error v)))

  module _ (spend_finalized : run.spend_finalized ≡ ok tt) where
    settle_gate-Pays_output :
        (s o : ℕ) (v : GateVerdict)
        → Pays (reserves_output id) (settles_output id) (one_if (o == id)) (settle_gate run s o v)
    unfolding settle_gate NotOutput Pays
    settle_gate-Pays_output s o v trace =
        let (e, eq, keeps) = settle_spend-one_call run s v spend_finalized in
        rw eq (ground (arith, keeps id, settle_output-Pays_output o v (e ∷ trace)))

    run_budgeted_gate-Pays_output :
        Pays (reserves_output id) (settles_output id) 0 (run_budgeted_gate run)
    unfolding run_budgeted_gate reserves_output settles_output Pays NotOutput
    run_budgeted_gate-Pays_output trace = elim (Result-cases run.spend_reservation) [
      | inl (s, r) ↦
          let release = released-NotOutput run.spend_released s id in
          elim (Result-cases run.output_reservation) [
            | inl (o, r2) ↦ elim (Result-cases run.verdict) [
              | inl (v, r3) ↦
                  rw (r, r2, r3)
                    (ground (
                      arith,
                      settle_gate-Pays_output s o v
                          (ran_gate ∷ reserved_output o ∷ reserved_spend s ∷ trace),
                    ))
              | inr (e, r3) ↦ rw (r, r2, r3) (ground (arith, release, output_recorded o 0))
            ]
            | inr (e, r2) ↦ rw (r, r2) (ground (arith, release))
          ]
      | inr (e, r) ↦ rw r (ground arith)
    ]

-- How often the calls of a trace that `made` and that `paid` pass.
abbrev SameCount : (made paid : ℕ → Effect → Bool) → List Effect → Type 0
SameCount made paid trace = (id : ℕ) → count_by (made id) trace ≡ count_by (paid id) trace

-- Each reservation in the trace is followed by as many calls to settle it.
unfoldable pub SpendAsked : List Effect → Type 0
SpendAsked trace = SameCount reserves_spend asks_spend trace

-- Each reservation in the trace is settled exactly as often as it was made.
unfoldable pub SpendSettled : List Effect → Type 0
SpendSettled trace = SameCount reserves_spend settles_spend trace

unfoldable pub OutputSettled : List Effect → Type 0
OutputSettled trace = SameCount reserves_output settles_output trace

-- On each path through the gate (replay, skip, refused reservation, failed call, each verdict), and
-- whatever its calls answer, the finalization or the release of each spend reservation that the gate
-- makes is called as often as the reservation is made.
pub run_llm_gate_for-SpendAsked : (run : GateRun) → SpendAsked (run_llm_gate_for run []).1
unfolding SpendAsked
run_llm_gate_for-SpendAsked run id =
    run_llm_gate_for-counts run id (asks_spend id) (asks-CountsSpend run id)

-- If the finalization and the release of the spend, where they are called, do not fail, then on each
-- path through the gate each spend reservation that the gate makes is finalized or released as often
-- as it is made.
pub run_llm_gate_for-SpendSettled :
    (run : GateRun)
    → run.spend_finalized ≡ ok tt
    → run.spend_released ≡ ok tt
    → SpendSettled (run_llm_gate_for run []).1
unfolding SpendSettled
run_llm_gate_for-SpendSettled run finalized released id =
    run_llm_gate_for-counts run id (settles_spend id)
      (settles-CountsSpend run id finalized released)

-- If the finalizations of the spend and of the output tokens, where they are called, do not fail, then
-- on each path through the gate each output reservation that the gate makes is finalized as often as
-- it is made. The release of the spend may fail.
pub run_llm_gate_for-OutputSettled :
    (run : GateRun)
    → run.spend_finalized ≡ ok tt
    → run.output_finalized ≡ ok tt
    → OutputSettled (run_llm_gate_for run []).1
unfolding OutputSettled Pays reserves_output settles_output
run_llm_gate_for-OutputSettled run spend output id = ground (
  arith,
  Pays-run_llm_gate_for (reserves_output id) (settles_output id) (λ e. refl) (λ e. refl) run
      (run_budgeted_gate-Pays_output run id output spend) [],
)
