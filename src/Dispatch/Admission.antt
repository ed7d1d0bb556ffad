-- ===== src/Dispatch/Admission.antt =====
-- When the content gate of src/dispatch.ts (`runLlmGateFor`) lets a request through.
use clawclub_server.Common.{
  ℕ, ◌≡◌, refl, sym, ap, ◌∙◌, ◌≢◌, inl, inr, true, false, ◌&&◌, some, List, [], ◌∷◌, ok, guard,
  Bool-cases, Option-cases, Result-cases,
}
use clawclub_server.Errors.{ErrorCode, invalid_data, low_quality_content}
use clawclub_server.Dispatch.Exec.{
  Effect, reserved_spend, finalized_spend, reserved_output, finalized_output, ran_gate,
  logged_usage, Exec, lift, answered, settle_call, ◌>>=◌ as ◌>>>=◌,
}
use clawclub_server.Dispatch.Gate.{
  GateVerdict, passed, rejected_illegal, rejected_quality, rejected_malformed, skipped, failed,
  gate_verdict_to_app_error, GateRun, throw_verdict, settle_spend, completion_tokens, is_terminal,
  idempotency_replay, store_terminal_gate_error, settle_gate, gate_artifact, run_budgeted_gate,
  run_llm_gate_for,
}

-- Inversion of a successful bind.
bind-eq-ok :
    {A B : Type 0} (m : Exec A) (f : A → Exec B) (trace : List Effect) {b : B}
    → ((m >>>= f) trace).0 ≡ ok b
    → (a : A) × ((m trace).0 ≡ ok a) × ((f a (m trace).1).0 ≡ ok b)
bind-eq-ok m f trace h = elim (Result-cases (m trace).0) [
  | inl (a, r) ↦ (a, r, rw r at h)
  | inr (e, r) ↦ cc
]

throw_verdict-ne-ok :
    (run : GateRun) (e : ErrorCode) (trace : List Effect)
    → (throw_verdict run (some e) trace).0 ≢ ok tt
unfolding store_terminal_gate_error
throw_verdict-ne-ok run e trace h =
    elim (Bool-cases (run.can_store_terminal_error && is_terminal e && run.has_client_key)) [
      | inl t ↦ cc (rw t at h)
      | inr t ↦ cc (rw t at h)
    ]

-- The calls of a run whose content passes: two reservations, the gate, two settlements with the tokens
-- that the gate reports, the usage log. Newest first.
unfoldable pub passed_trace : (s o prompt_tokens completion_tokens : ℕ) → List Effect
passed_trace s o p c =
    logged_usage
    ∷ finalized_output o c
    ∷ finalized_spend s p c
    ∷ ran_gate
    ∷ reserved_output o
    ∷ reserved_spend s
    ∷ []

-- The gate passed the content.
unfoldable pub Passed : GateRun → Type 0
Passed run =
    (p c s o : ℕ) × (run.verdict ≡ ok (passed p c))
    × ((run_llm_gate_for run []).1 ≡ passed_trace s o p c)

verdict-eq-passed :
    (run : GateRun) (v : GateVerdict) (trace : List Effect)
    → (throw_verdict run (gate_verdict_to_app_error v) trace).0 ≡ ok tt
    → (p c : ℕ) × (v ≡ passed p c)
unfolding gate_verdict_to_app_error
verdict-eq-passed run (passed p c) trace h = (p, c, refl)
verdict-eq-passed run (rejected_illegal p c) trace h = absurd (throw_verdict-ne-ok run _ trace h)
verdict-eq-passed run (rejected_quality p c) trace h = absurd (throw_verdict-ne-ok run _ trace h)
verdict-eq-passed run (rejected_malformed p c) trace h = absurd (throw_verdict-ne-ok run _ trace h)
verdict-eq-passed run skipped trace h = absurd (throw_verdict-ne-ok run _ trace h)
verdict-eq-passed run failed trace h = absurd (throw_verdict-ne-ok run _ trace h)

passed_settle_gate-eq-ok :
    (run : GateRun) (s o p c : ℕ) (trace : List Effect)
    → (settle_gate run s o (passed p c) trace).0 ≡ ok tt
    → (settle_gate run s o (passed p c) trace).1
      ≡ logged_usage ∷ finalized_output o c ∷ finalized_spend s p c ∷ trace
unfolding settle_gate gate_verdict_to_app_error answered
passed_settle_gate-eq-ok run s o p c trace h = elim (Result-cases run.spend_finalized) [
  | inl (u, r) ↦ elim (Result-cases run.output_finalized) [
    | inl (w, r2) ↦ rw (r, r2) refl
    | inr (e, r2) ↦ cc (rw (r, r2) at h)
  ]
  | inr (e, r) ↦ cc (rw r at h)
]

settle_gate-eq-ok :
    (run : GateRun) (s o : ℕ) (v : GateVerdict) (trace : List Effect)
    → (settle_gate run s o v trace).0 ≡ ok tt
    → (p c : ℕ) × (v ≡ passed p c)
unfolding settle_gate
settle_gate-eq-ok run s o v trace h =
    let (_, _, h2) = bind-eq-ok (settle_spend run s v) _ trace h in
    let (_, _, h3) =
      bind-eq-ok (settle_call (finalized_output o (completion_tokens v)) run.output_finalized) _
        (settle_spend run s v trace).1 h2 in
    verdict-eq-passed run v _ h3

run_budgeted_gate-eq-ok :
    (run : GateRun)
    → (run_budgeted_gate run []).0 ≡ ok tt
    → (p c s o : ℕ) × (run.verdict ≡ ok (passed p c))
      × ((run_budgeted_gate run []).1 ≡ passed_trace s o p c)
unfolding run_budgeted_gate passed_trace
run_budgeted_gate-eq-ok run h = elim (Result-cases run.spend_reservation) [
  | inl (s, r) ↦ elim (Result-cases run.output_reservation) [
    | inl (o, r2) ↦ elim (Result-cases run.verdict) [
      | inl (v, r3) ↦
          let h2 = simp (r, r2, r3) at h in
          let (p, c, v_eq) = settle_gate-eq-ok run s o v _ h2 in
          (
            p,
            c,
            s,
            o,
            r3 ∙ ap ok v_eq,
            simp (r, r2, r3, v_eq) (passed_settle_gate-eq-ok run s o p c _ (simp v_eq at h2)),
          )
      | inr (e, r3) ↦ cc (rw (r, r2, r3) at h)
    ]
    | inr (e, r2) ↦ cc (rw (r, r2) at h)
  ]
  | inr (e, r) ↦ cc (rw r at h)
]

idempotency_replay_quiet :
    (run : GateRun) (trace : List Effect) → (idempotency_replay run trace).1 ≡ trace
unfolding idempotency_replay
idempotency_replay_quiet run trace = elim (Bool-cases run.has_client_key) [
  | inl k ↦ elim (Result-cases run.terminal_error) [
    | inl (t, r) ↦ elim (Option-cases t) [
      | inl n ↦ simp (k, r, n) refl
      | inr (e, n) ↦ simp (k, r, n) refl
    ]
    | inr (e, r) ↦ simp (k, r) refl
  ]
  | inr k ↦ simp k refl
]

gate_artifact-eq-ok :
    (run : GateRun)
    → (gate_artifact run []).0 ≡ ok tt
    → gate_artifact run [] ≡ run_budgeted_gate run []
unfolding gate_artifact
gate_artifact-eq-ok run h =
    let (low, r, h2) = bind-eq-ok (lift run.low_substance) _ [] h in
    elim (Bool-cases low) [
      | inl t ↦ absurd (throw_verdict-ne-ok run low_quality_content [] (simp t at h2))
      | inr f ↦
          let (club, r2, h3) = bind-eq-ok (lift run.has_budget_club) _ [] (simp f at h2) in
          let (_, r3, h4) = bind-eq-ok (lift (guard club invalid_data)) _ [] h3 in
          let (_, r4, h5) = bind-eq-ok (lift (guard run.has_output_budget invalid_data)) _ [] h4 in
          let (_, r5, h6) = bind-eq-ok (lift (guard run.has_spend_budget invalid_data)) _ [] h5 in
          simp (r, f, r2, r3, r4, r5) refl
    ]

bind-ok :
    {A B : Type 0} (m : Exec A) (f : A → Exec B) (trace : List Effect) (a : A)
    → (m trace).0 ≡ ok a
    → (m trace).1 ≡ trace
    → (m >>>= f) trace ≡ f a trace
bind-ok m f trace a r t = rw (r, t) refl

-- Neither a replay nor exempt: the content is gated.
run_llm_gate_for-eq-gate_artifact :
    (run : GateRun)
    → run.has_gate ≡ true
    → guard run.has_actor invalid_data ≡ ok tt
    → (idempotency_replay run []).0 ≡ ok false
    → run.should_skip ≡ ok false
    → run_llm_gate_for run [] ≡ gate_artifact run []
unfolding run_llm_gate_for
run_llm_gate_for-eq-gate_artifact run g a r s = simp g (
    bind-ok (lift (guard run.has_actor invalid_data)) _ [] tt a refl
    ∙ bind-ok (idempotency_replay run) _ [] false r (idempotency_replay_quiet run [])
    ∙ bind-ok (lift run.should_skip) _ [] false s refl)

-- Why a request may go on to its handler.
pub data Admitted (run : GateRun) : Type 0 where
  ungated : run.has_gate ≡ false → Admitted run
  replayed : (idempotency_replay run []).0 ≡ ok true → Admitted run
  exempt : run.should_skip ≡ ok true → Admitted run
  by_verdict : Passed run → Admitted run

-- A request whose gate returns without an error was admitted: its action has no gate, the request
-- is the replay of an earlier one, the action exempts it, or the gate passed the content; then both
-- budgets were reserved before the gate ran and were settled by the tokens that the gate reports.
pub run_llm_gate_for-Admitted : (run : GateRun) → (run_llm_gate_for run []).0 ≡ ok tt → Admitted run
unfolding run_llm_gate_for Passed
run_llm_gate_for-Admitted run h = elim (Bool-cases run.has_gate) [
  | inr g ↦ ungated g
  | inl g ↦
      let (_, a, h2) = bind-eq-ok (lift (guard run.has_actor invalid_data)) _ [] (simp g at h) in
      let (hit, r, h3) = bind-eq-ok (idempotency_replay run) _ [] h2 in
      elim (Bool-cases hit) [
        | inl t ↦ replayed (r ∙ ap ok t)
        | inr f ↦
            let (skip, r2, h4) =
              bind-eq-ok (lift run.should_skip) _ []
                (simp (f, idempotency_replay_quiet run []) at h3) in
            elim (Bool-cases skip) [
              | inl t ↦ exempt (r2 ∙ ap ok t)
              | inr f2 ↦
                  let h5 = simp f2 at h4 in
                  let eq = gate_artifact-eq-ok run h5 in
                  let (p, c, s, o, v, trace) =
                    run_budgeted_gate-eq-ok run (ap (λ r. r.0) (sym eq) ∙ h5) in
                  let path =
                    run_llm_gate_for-eq-gate_artifact run g a (r ∙ ap ok f) (r2 ∙ ap ok f2) ∙ eq in
                  by_verdict (p, c, s, o, v, ap (λ r. r.1) path ∙ trace)
            ]
      ]
]
