-- ===== src/Idempotency/Once.antt =====
-- src/idempotency.ts: what a client key promises to its caller.
use clawclub_server.Common.{
  ℕ, ◌≡◌, refl, ap, ◌∙◌, ◌≢◌, inl, inr, Option, some, List, arith, ◌==◌, get_or, find, update_where,
  Result, ok, err, Bool-cases, Option-cases, ==_iff, ==_refl, Result-cases,
}
use clawclub_server.Errors.{ErrorCode, client_key_conflict}
use clawclub_server.Idempotency.Keys.{
  StoredValue, response, terminal_error, IdempotencyKey, KeyedRequest, returned, threw, attempt,
  thrown, is_row_of, touch, lookup_idempotency, insert_key, store_terminal_idempotency_error,
  replay, first_call, with_idempotency,
}
use clawclub_server.Idempotency.Replay.{SameKey, kept, kept-touch, kept-insert_key, kept-same}
use clawclub_server.Idempotency.Runs.{Call, call_run, kept-call_run, Attempt-cases}

some_pair : {A B : Type 0} (p q : A × B) → some p ≡ some q → (p.0 ≡ q.0) × (p.1 ≡ q.1)
some_pair p q h = (ap (λ o. (get_or o p).0) h, ap (λ o. (get_or o p).1) h)

module _ {T S : Type 0} (rows : List (IdempotencyKey T)) (s : S) (now : ℕ) (request : KeyedRequest)
    (execute : S → Result ((T × Option T) × S)) (on_replay : T → Result T) where
  -- What a row gives to a request of its key.
  kept-hit :
      (v : StoredValue T)
      → kept rows request ≡ some (request.request_hash, v)
      → with_idempotency (rows, s) now request execute on_replay
        ≡ replay on_replay s v (update_where (is_row_of request) (touch now) rows)
  unfolding kept with_idempotency lookup_idempotency
  kept-hit v h = elim (Option-cases (find (is_row_of request) rows)) [
    | inl n ↦ cc (rw n at h)
    | inr (row, n) ↦
        let (hash, value) =
          some_pair (row.request_hash, row.response_envelope) (request.request_hash, v)
            (rw n at h) in
        simp (n, hash, ==_refl request.request_hash, value) refl
  ]

  kept-conflict :
      (hash : ℕ) (v : StoredValue T)
      → kept rows request ≡ some (hash, v)
      → hash ≢ request.request_hash
      → with_idempotency (rows, s) now request execute on_replay ≡ threw client_key_conflict
  unfolding kept with_idempotency lookup_idempotency
  kept-conflict hash v h differ = elim (Option-cases (find (is_row_of request) rows)) [
    | inl n ↦ cc (rw n at h)
    | inr (row, n) ↦
        let (is_hash, value) =
          some_pair (row.request_hash, row.response_envelope) (hash, v) (rw n at h) in
        elim (Bool-cases (hash == request.request_hash)) [
          | inl same ↦ absurd (differ ((==_iff hash request.request_hash).0 same))
          | inr other ↦ simp (n, is_hash, other) refl
        ]
  ]

  -- A call that returned has a row, with its hash and a response.
  kept-executed :
      (r : Result ((T × Option T) × S)) (answer : T) (db : List (IdempotencyKey T) × S)
      → attempt (thrown r) (λ r. first_call now request rows r) ≡ returned (answer, db)
      → (t : T) × (kept db.0 request ≡ some (request.request_hash, response t))
  kept-executed (err e) answer db h = cc
  kept-executed (ok ((a, st), s2)) answer db h =
      elim (Attempt-cases (insert_key rows now request (response (get_or st a)))) [
        | inl (rows2, r) ↦ (
          get_or st a,
          ground
              (arith, kept-insert_key rows rows2 now request (response (get_or st a)) r, rw r at h),
        )
        | inr (inl (e, r)) ↦ cc (rw r at h)
        | inr (inr r) ↦ cc (rw r at h)
      ]

  kept-replayed :
      (v : StoredValue T) (answer : T) (db : List (IdempotencyKey T) × S)
      → kept rows request ≡ some (request.request_hash, v)
      → replay on_replay s v (update_where (is_row_of request) (touch now) rows)
        ≡ returned (answer, db)
      → (t : T) × (kept db.0 request ≡ some (request.request_hash, response t))
  kept-replayed (terminal_error e) answer db k h = cc
  kept-replayed (response t) answer db k h = elim (Result-cases (on_replay t)) [
    | inr (e, r) ↦ cc (rw r at h)
    | inl (a, r) ↦ (t, ground (arith, k, kept-touch rows now request request, rw r at h))
  ]

  kept-returned :
      (answer : T) (db : List (IdempotencyKey T) × S)
      → with_idempotency (rows, s) now request execute on_replay ≡ returned (answer, db)
      → (t : T) × (kept db.0 request ≡ some (request.request_hash, response t))
  unfolding with_idempotency lookup_idempotency kept
  kept-returned answer db h = elim (Option-cases (find (is_row_of request) rows)) [
    | inl n ↦ kept-executed (execute s) answer db (rw n at h)
    | inr (row, n) ↦ elim (Bool-cases (row.request_hash == request.request_hash)) [
      | inr other ↦ cc (rw (n, other) at h)
      | inl same ↦
          kept-replayed row.response_envelope answer db
            (rw (n, ← (==_iff row.request_hash request.request_hash).0 same) refl)
            (rw (n, same) at h)
    ]
  ]

module _ {T S : Type 0} (rows : List (IdempotencyKey T)) (s : S) (now : ℕ) (request : KeyedRequest)
    (execute : S → Result ((T × Option T) × S)) (on_replay : T → Result T) (answer : T)
    (db : List (IdempotencyKey T) × S) where
  -- Once a call with a client key has returned, a retry of the request has no further effect, whatever
  -- transactions and calls come between: there is a value that `on_replay` of each retry is given, the
  -- retry does not execute, and it leaves all tables but the keys as they are.
  pub with_idempotency_once :
      with_idempotency (rows, s) now request execute on_replay ≡ returned (answer, db)
      → (t : T) × ((calls : List (Call T S)) (later : ℕ) (again : S → Result ((T × Option T) × S))
            (replay_again : T → Result T)
          → with_idempotency (call_run db calls) later request again replay_again
            ≡ attempt (thrown (replay_again t)) (λ r. returned (
              r,
              (
                update_where (is_row_of request) (touch later) (call_run db calls).0,
                (call_run db calls).1,
              ),
            )))
  with_idempotency_once h =
      let (t, there) = kept-returned rows s now request execute on_replay answer db h in
      (
        t,
        λ calls later again replay_again.
            kept-hit (call_run db calls).0 (call_run db calls).1 later request again replay_again
              (response t)
              (kept-call_run request (request.request_hash, response t) db calls there),
      )

  -- Once a call with a client key has returned, every later request of the key in its context that has
  -- another hash is refused with client_key_conflict, whatever comes between.
  pub with_idempotency_conflict :
      with_idempotency (rows, s) now request execute on_replay ≡ returned (answer, db)
      → (calls : List (Call T S)) (later : ℕ) (other : KeyedRequest)
        (again : S → Result ((T × Option T) × S)) (replay_again : T → Result T)
      → SameKey other request
      → request.request_hash ≢ other.request_hash
      → with_idempotency (call_run db calls) later other again replay_again
        ≡ threw client_key_conflict
  with_idempotency_conflict h calls later other again replay_again same differ =
      let (t, there) = kept-returned rows s now request execute on_replay answer db h in
      let (rows2, s2) = call_run db calls in
      kept-conflict rows2 s2 later other again replay_again request.request_hash (response t)
        (kept-same rows2 other request same
          ∙ kept-call_run request (request.request_hash, response t) db calls there)
        differ

-- A terminal error that was stored for a request answers every later call of it, whatever comes
-- between: the call does not execute.
pub terminal_error_stays :
    {T S : Type 0} (rows rows' : List (IdempotencyKey T)) (s : S) (now : ℕ) (request : KeyedRequest)
    (e : ErrorCode)
    → store_terminal_idempotency_error rows now request e ≡ returned rows'
    → (calls : List (Call T S)) (later : ℕ) (execute : S → Result ((T × Option T) × S))
      (on_replay : T → Result T)
    → with_idempotency (call_run (rows', s) calls) later request execute on_replay ≡ threw e
unfolding store_terminal_idempotency_error
terminal_error_stays rows rows' s now request e h calls later execute on_replay =
    kept-hit (call_run (rows', s) calls).0 (call_run (rows', s) calls).1 later request execute
      on_replay (terminal_error e)
      (kept-call_run request (request.request_hash, terminal_error e) (rows', s) calls
        (kept-insert_key rows rows' now request (terminal_error e) h))
