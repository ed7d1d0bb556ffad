-- ===== src/Dispatch/SpendCounts.antt =====
-- How the trace of a content gate (src/dispatch.ts, `runLlmGateFor`) counts a spend reservation: the calls
-- that settle it, with those that fail or without.
use clawclub_server.Common.{
  ℕ, ◌≡◌, refl, ap, inl, inr, Bool, false, [], ◌∷◌, arith, ◌==◌, count_by, Result, ok, err,
  Result-cases,
}
use clawclub_server.Errors.{ErrorCode}
use clawclub_server.Dispatch.Exec.{
  Effect, reserved_spend, released_spend, finalized_spend, reserved_output, finalized_output,
  ran_gate, logged_usage, stored_terminal_error, failed_call, safely, answered, settle_call,
  safely_settle,
}
use clawclub_server.Dispatch.Gate.{
  GateVerdict, passed, rejected_illegal, rejected_quality, rejected_malformed, skipped, failed,
  gate_verdict_to_app_error, GateRun, settle_spend, settle_output, completion_tokens, settle_gate,
  run_budgeted_gate, run_llm_gate_for,
}
use clawclub_server.Dispatch.Pays.{
  one_if, Pays, Pays-bind, Pays-call, Pays-settle_call, Pays-safely_settle, Pays-throw_verdict,
  Pays-run_llm_gate_for,
}

unfoldable pub reserves_spend : ℕ → Effect → Bool
reserves_spend id (reserved_spend i) = i == id
reserves_spend id _ = false

unfoldable pub settles_spend : ℕ → Effect → Bool
settles_spend id (released_spend i) = i == id
settles_spend id (finalized_spend i p c) = i == id
settles_spend id _ = false

-- The calls that are made to settle it, also those that fail.
unfoldable pub asks_spend : ℕ → Effect → Bool
unfolding settles_spend
asks_spend id (failed_call e) = asks_spend id e
asks_spend id e = settles_spend id e

unfoldable pub reserves_output : ℕ → Effect → Bool
reserves_output id (reserved_output i) = i == id
reserves_output id _ = false

unfoldable pub settles_output : ℕ → Effect → Bool
settles_output id (finalized_output i t) = i == id
settles_output id _ = false

-- How `paid` counts what a run records about the spend reservation `id`.
pub record CountsSpend (run : GateRun) (id : ℕ) (paid : Effect → Bool) : Type 0 where
  pub released : (s : ℕ) → paid (answered run.spend_released (released_spend s)) ≡ (s == id)
  pub finalized :
      (s p c : ℕ) → paid (answered run.spend_finalized (finalized_spend s p c)) ≡ (s == id)
  pub on_output : (o t : ℕ) → paid (answered run.output_finalized (finalized_output o t)) ≡ false
  pub on_reserved : (s : ℕ) → paid (reserved_spend s) ≡ false
  pub on_reserved_output : (o : ℕ) → paid (reserved_output o) ≡ false
  pub on_gate : paid ran_gate ≡ false
  pub on_usage : paid logged_usage ≡ false
  pub on_stored : (e : ErrorCode) → paid (stored_terminal_error e) ≡ false

asks_spend-answered :
    {A : Type 0} (id : ℕ) (r : Result A) (e : Effect)
    → asks_spend id (answered r e) ≡ asks_spend id e
unfolding asks_spend answered
asks_spend-answered id (ok a) e = refl
asks_spend-answered id (err x) e = refl

pub answered_ok : (r : Result (Unit {0})) (e : Effect) → r ≡ ok tt → answered r e ≡ e
unfolding answered
answered_ok r e h = rw h refl

settles_spend-answered_output :
    {A : Type 0} (id : ℕ) (r : Result A) (o t : ℕ)
    → settles_spend id (answered r (finalized_output o t)) ≡ false
unfolding settles_spend answered
settles_spend-answered_output id (ok a) o t = refl
settles_spend-answered_output id (err x) o t = refl

reserves_spend-answered :
    {A : Type 0} (id : ℕ) (r : Result A) (e : Effect)
    → reserves_spend id e ≡ false
    → reserves_spend id (answered r e) ≡ false
unfolding reserves_spend answered
reserves_spend-answered id (ok a) e h = h
reserves_spend-answered id (err x) e h = refl

pub asks-CountsSpend : (run : GateRun) (id : ℕ) → CountsSpend run id (asks_spend id)
unfolding asks_spend
asks-CountsSpend run id = record {
  released = λ s. asks_spend-answered id run.spend_released (released_spend s);
  finalized = λ s p c. asks_spend-answered id run.spend_finalized (finalized_spend s p c);
  on_output = λ o t. asks_spend-answered id run.output_finalized (finalized_output o t);
  on_reserved = λ s. refl;
  on_reserved_output = λ o. refl;
  on_gate = refl;
  on_usage = refl;
  on_stored = λ e. refl;
}

pub settles-CountsSpend :
    (run : GateRun) (id : ℕ)
    → run.spend_finalized ≡ ok tt
    → run.spend_released ≡ ok tt
    → CountsSpend run id (settles_spend id)
unfolding settles_spend
settles-CountsSpend run id f r = record {
  released = λ s. ap (settles_spend id) (answered_ok run.spend_released (released_spend s) r);
  finalized =
      λ s p c. ap (settles_spend id) (answered_ok run.spend_finalized (finalized_spend s p c) f);
  on_output = λ o t. settles_spend-answered_output id run.output_finalized o t;
  on_reserved = λ s. refl;
  on_reserved_output = λ o. refl;
  on_gate = refl;
  on_usage = refl;
  on_stored = λ e. refl;
}

module _ (run : GateRun) (id : ℕ) (paid : Effect → Bool) (counts : CountsSpend run id paid) where
  billed :
      (s p c : ℕ)
      → Pays
          (reserves_spend id)
          paid
          (one_if (s == id))
          (settle_call (finalized_spend s p c) run.spend_finalized)
  unfolding reserves_spend
  billed s p c =
      Pays-settle_call (reserves_spend id) paid (finalized_spend s p c) run.spend_finalized
        (reserves_spend-answered id run.spend_finalized (finalized_spend s p c) refl)
        (counts.finalized s p c)

  let_go :
      (s : ℕ)
      → Pays
          (reserves_spend id)
          paid
          (one_if (s == id))
          (safely_settle (released_spend s) run.spend_released)
  unfolding reserves_spend
  let_go s =
      Pays-safely_settle (reserves_spend id) paid (released_spend s) run.spend_released
        (reserves_spend-answered id run.spend_released (released_spend s) refl) (counts.released s)

  settle_spend-Pays :
      (s : ℕ) (v : GateVerdict)
      → Pays (reserves_spend id) paid (one_if (s == id)) (settle_spend run s v)
  settle_spend-Pays s (passed p c) = billed s p c
  settle_spend-Pays s (rejected_illegal p c) = billed s p c
  settle_spend-Pays s (rejected_quality p c) = billed s p c
  settle_spend-Pays s (rejected_malformed p c) = billed s p c
  settle_spend-Pays s skipped = let_go s
  settle_spend-Pays s failed = let_go s

  settle_output-Pays_spend :
      (o : ℕ) (v : GateVerdict) → Pays (reserves_spend id) paid 0 (settle_output run o v)
  unfolding reserves_spend
  settle_output-Pays_spend o v =
      Pays-bind (reserves_spend id) paid 0
        (settle_call (finalized_output o (completion_tokens v)) run.output_finalized) _
        (Pays-settle_call (reserves_spend id) paid (finalized_output o (completion_tokens v))
          run.output_finalized
          (reserves_spend-answered id run.output_finalized
            (finalized_output o (completion_tokens v)) refl)
          (counts.on_output o (completion_tokens v)))
        (λ _.
          Pays-bind (reserves_spend id) paid 0 (safely logged_usage) _
            (Pays-call (reserves_spend id) paid logged_usage (ok tt) refl counts.on_usage)
            (λ _.
              Pays-throw_verdict (reserves_spend id) paid (λ e. refl) counts.on_stored run
                (gate_verdict_to_app_error v)))

  settle_gate-Pays_spend :
      (s o : ℕ) (v : GateVerdict)
      → Pays (reserves_spend id) paid (one_if (s == id)) (settle_gate run s o v)
  unfolding settle_gate
  settle_gate-Pays_spend s o v =
      Pays-bind (reserves_spend id) paid (one_if (s == id)) (settle_spend run s v) _
        (settle_spend-Pays s v) (λ _. settle_output-Pays_spend o v)

  run_budgeted_gate-Pays_spend : Pays (reserves_spend id) paid 0 (run_budgeted_gate run)
  unfolding run_budgeted_gate reserves_spend Pays
  run_budgeted_gate-Pays_spend trace = elim (Result-cases run.spend_reservation) [
    | inl (s, r) ↦
        let release = reserves_spend-answered id run.spend_released (released_spend s) refl in
        elim (Result-cases run.output_reservation) [
          | inl (o, r2) ↦ elim (Result-cases run.verdict) [
            | inl (v, r3) ↦
                rw (r, r2, r3)
                  (ground (
                    arith,
                    settle_gate-Pays_spend s o v
                        (ran_gate ∷ reserved_output o ∷ reserved_spend s ∷ trace),
                    counts.on_gate,
                    counts.on_reserved s,
                    counts.on_reserved_output o,
                  ))
            | inr (e, r3) ↦
                rw (r, r2, r3)
                  (ground (
                    arith,
                    release,
                    reserves_spend-answered id run.output_finalized (finalized_output o 0) refl,
                    counts.released s,
                    counts.on_output o 0,
                    counts.on_gate,
                    counts.on_reserved s,
                    counts.on_reserved_output o,
                  ))
          ]
          | inr (e, r2) ↦
              rw (r, r2) (ground (arith, release, counts.released s, counts.on_reserved s))
        ]
    | inr (e, r) ↦ rw r (ground arith)
  ]

  pub run_llm_gate_for-counts :
      count_by (reserves_spend id) (run_llm_gate_for run []).1
      ≡ count_by paid (run_llm_gate_for run []).1
  unfolding Pays reserves_spend
  run_llm_gate_for-counts = ground (
    arith,
    Pays-run_llm_gate_for (reserves_spend id) paid (λ e. refl) counts.on_stored run
        run_budgeted_gate-Pays_spend [],
  )
