-- ===== src/Dispatch/Pays.antt =====
-- What a computation of the content gate of src/dispatch.ts settles beyond what it reserves.
use clawclub_server.Common.{
  ℕ, ◌+◌, ◌≡◌, inl, inr, Bool, true, false, not, ◌&&◌, Option, none, some, List, arith,
  if◌then◌else◌, count_by, Result, ok, err, guard, Bool-cases, Result-cases,
}
use clawclub_server.Errors.{ErrorCode, invalid_data, low_quality_content}
use clawclub_server.Dispatch.Exec.{
  Effect, stored_terminal_error, Exec, lift, call, answered, settle_call, safely_settle,
  ◌>>=◌ as ◌>>>=◌,
}
use clawclub_server.Dispatch.Gate.{
  GateRun, throw_verdict, is_terminal, found_terminal, idempotency_replay,
  store_terminal_gate_error, gate_artifact, run_budgeted_gate, run_llm_gate_for,
}

abbrev pub one_if : Bool → ℕ
one_if b = if b then 1 else 0

-- What a computation settles beyond what it reserves: `n` calls that pass `paid` against those that
-- pass `made`.
module _ (made paid : Effect → Bool) where
  unfoldable pub Pays : {A : Type 0} → ℕ → Exec A → Type 0
  Pays n m =
      (trace : List Effect)
      → count_by paid (m trace).1 + count_by made trace
        ≡ n + count_by made (m trace).1 + count_by paid trace

  pub Pays-bind :
      {A B : Type 0} (n : ℕ) (m : Exec A) (f : A → Exec B)
      → Pays n m
      → ((a : A) → Pays 0 (f a))
      → Pays n (m >>>= f)
  unfolding Pays
  Pays-bind n m f hm hf trace = elim (Result-cases (m trace).0) [
    | inl (a, r) ↦ rw r (ground (arith, hm trace, hf a (m trace).1))
    | inr (e, r) ↦ rw r (hm trace)
  ]

  pub Pays-pure : {A : Type 0} (r : Result A) → Pays 0 (lift r)
  unfolding Pays
  Pays-pure r trace = ground arith

  pub Pays-call :
      {A : Type 0} (e : Effect) (r : Result A) → made e ≡ false → paid e ≡ false → Pays 0 (call e r)
  unfolding Pays
  Pays-call e r hm hp trace = ground arith

  pub Pays-settle_call :
      {b : Bool} (e : Effect) (r : Result (Unit {0}))
      → made (answered r e) ≡ false
      → paid (answered r e) ≡ b
      → Pays (one_if b) (settle_call e r)
  unfolding Pays
  Pays-settle_call e r hm hp trace = ground (arith, hm, hp)

  pub Pays-safely_settle :
      {b : Bool} (e : Effect) (r : Result (Unit {0}))
      → made (answered r e) ≡ false
      → paid (answered r e) ≡ b
      → Pays (one_if b) (safely_settle e r)
  unfolding Pays
  Pays-safely_settle e r hm hp trace = ground (arith, hm, hp)

  module _ (made-stored : (e : ErrorCode) → made (stored_terminal_error e) ≡ false)
      (paid-stored : (e : ErrorCode) → paid (stored_terminal_error e) ≡ false) where
    pub Pays-throw_verdict : (run : GateRun) (e : Option ErrorCode) → Pays 0 (throw_verdict run e)
    unfolding store_terminal_gate_error Pays
    Pays-throw_verdict run none trace = Pays-pure (ok tt) trace
    Pays-throw_verdict run (some e) trace =
        elim (Bool-cases (run.can_store_terminal_error && is_terminal e && run.has_client_key)) [
          | inl h ↦ rw h (ground (arith, made-stored e, paid-stored e))
          | inr h ↦ rw h (ground arith)
        ]

module _ (made paid : Effect → Bool)
    (made-stored : (e : ErrorCode) → made (stored_terminal_error e) ≡ false)
    (paid-stored : (e : ErrorCode) → paid (stored_terminal_error e) ≡ false) where
  Pays-if :
      {A : Type 0} (b : Bool) (m k : Exec A)
      → Pays made paid 0 m
      → Pays made paid 0 k
      → Pays made paid 0 (if b then m else k)
  Pays-if true m k hm hk = hm
  Pays-if false m k hm hk = hk

  Pays-lift :
      {A B : Type 0} (r : Result A) (f : A → Exec B)
      → ((a : A) → Pays made paid 0 (f a))
      → Pays made paid 0 (lift r >>>= f)
  Pays-lift r f hf = Pays-bind made paid 0 (lift r) f (Pays-pure made paid r) hf

  Pays-found_terminal : (t : Option ErrorCode) → Pays made paid 0 (found_terminal t)
  Pays-found_terminal none = Pays-pure made paid (ok tt)
  Pays-found_terminal (some e) = Pays-pure made paid (err e)

  Pays-idempotency_replay : (run : GateRun) → Pays made paid 0 (idempotency_replay run)
  unfolding idempotency_replay
  Pays-idempotency_replay run =
      Pays-if run.has_client_key _ _
        (Pays-lift run.terminal_error _ (λ t.
          Pays-bind made paid 0 (found_terminal t) _ (Pays-found_terminal t)
            (λ _. Pays-pure made paid run.replay_hit)))
        (Pays-pure made paid (ok false))

  pub Pays-run_llm_gate_for :
      (run : GateRun)
      → Pays made paid 0 (run_budgeted_gate run)
      → Pays made paid 0 (run_llm_gate_for run)
  unfolding run_llm_gate_for gate_artifact
  Pays-run_llm_gate_for run budgeted =
      Pays-if (not run.has_gate) _ _ (Pays-pure made paid (ok tt)) (
        Pays-lift (guard run.has_actor invalid_data) _ (λ _.
          Pays-bind made paid 0 (idempotency_replay run) _ (Pays-idempotency_replay run)
            (λ replayed. Pays-if replayed _ _ (Pays-pure made paid (ok tt)) (
              Pays-lift run.should_skip _ (λ skip. Pays-if skip _ _ (Pays-pure made paid (ok tt)) (
                Pays-lift run.low_substance _ (λ low.
                  Pays-if low _ _
                    (Pays-throw_verdict made paid made-stored paid-stored run
                      (some low_quality_content))
                    (Pays-lift run.has_budget_club _ (λ club.
                      Pays-lift (guard club invalid_data) _ (λ _.
                        Pays-lift (guard run.has_output_budget invalid_data) _ (λ _.
                          Pays-lift (guard run.has_spend_budget invalid_data) _
                            (λ _. budgeted))))))))))))
