-- ===== src/Idempotency/Tests.antt =====
-- Client keys (src/idempotency.ts) on a counter: each call that executes adds one.
use clawclub_server.Common.{
  ℕ, ◌+◌, ◌≡◌, refl, Option, none, List, [], ◌∷◌, arith, update_where, Result, ok,
}
use clawclub_server.Errors.{client_key_conflict, low_quality_content}
use clawclub_server.Idempotency.Keys.{
  IdempotencyKey, KeyedRequest, returned, threw, attempt, thrown, is_row_of, touch,
  with_idempotency, lookup_idempotency, insert_key, store_terminal_idempotency_error,
}
use clawclub_server.Idempotency.Replay.{SameKey}
use clawclub_server.Idempotency.Runs.{Call, runs, works, call_run}
use clawclub_server.Idempotency.Once.{
  with_idempotency_once, with_idempotency_conflict, terminal_error_stays,
}

abbrev request : KeyedRequest
request = record { client_key = 1; actor_context = 7; request_hash = 99 }

abbrev another : KeyedRequest
another = record { client_key = 1; actor_context = 7; request_hash = 98 }

abbrev count_up : ℕ → Result ((ℕ × Option ℕ) × ℕ)
count_up n = ok ((n + 1, none), n + 1)

abbrev between : List (Call ℕ ℕ)
between = works (λ n. n + 10) ∷ runs 6 another count_up ok ∷ []

first_call :
    (db : List (IdempotencyKey ℕ) × ℕ) × (with_idempotency ([], 0) 5 request count_up ok
      ≡ returned (1, db))
unfolding with_idempotency lookup_idempotency insert_key
first_call = (_, refl)

with_idempotency_once_example :
    (t : ℕ) × ((calls : List (Call ℕ ℕ)) (later : ℕ) (again : ℕ → Result ((ℕ × Option ℕ) × ℕ))
        (replay_again : ℕ → Result ℕ)
      → with_idempotency (call_run first_call.0 calls) later request again replay_again
        ≡ attempt (thrown (replay_again t)) (λ r. returned (
          r,
          (
            update_where (is_row_of request) (touch later) (call_run first_call.0 calls).0,
            (call_run first_call.0 calls).1,
          ),
        )))
with_idempotency_once_example =
    with_idempotency_once [] 0 5 request count_up ok 1 first_call.0 first_call.1

with_idempotency_conflict_example :
    with_idempotency (call_run first_call.0 between) 9 another count_up ok
    ≡ threw client_key_conflict
unfolding SameKey
with_idempotency_conflict_example =
    with_idempotency_conflict [] 0 5 request count_up ok 1 first_call.0 first_call.1 between 9
      another count_up ok (refl, refl) (λ e. omega (arith, e))

rejected_key :
    (rows : List (IdempotencyKey ℕ)) × (store_terminal_idempotency_error [] 5 request
        low_quality_content
      ≡ returned rows)
unfolding store_terminal_idempotency_error insert_key
rejected_key = (_, refl)

terminal_error_stays_example :
    with_idempotency (call_run (rejected_key.0, 0) between) 9 request count_up ok
    ≡ threw low_quality_content
terminal_error_stays_example =
    terminal_error_stays [] rejected_key.0 0 5 request low_quality_content rejected_key.1 between 9
      count_up ok
