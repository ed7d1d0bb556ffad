-- ===== src/Idempotency/Runs.antt =====
-- src/idempotency.ts: client keys over any sequence of transactions.
use clawclub_server.Common.{
  ℕ, ◌≡◌, refl, ◌⊎◌, inl, inr, Option, none, some, List, [], ◌∷◌, arith, get_or, Result, after,
  Result-cases,
}
use clawclub_server.Errors.{ErrorCode}
use clawclub_server.Idempotency.Keys.{
  StoredValue, response, terminal_error, IdempotencyKey, KeyedRequest, Attempt, returned, threw,
  duplicate_key, committed, lookup_idempotency, insert_key, store_terminal_idempotency_error,
  after_lookup, with_idempotency,
}
use clawclub_server.Idempotency.Replay.{kept, kept-lookup, kept-insert_any}

-- What happens to the keys, and to the other tables `S`; `works` is any other transaction.
pub data Call (T S : Type 0) : Type 0 where
  runs :
      (now : ℕ) (request : KeyedRequest) (execute : S → Result ((T × Option T) × S))
      (on_replay : T → Result T)
      → Call T S
  looks_up : (now : ℕ) (request : KeyedRequest) → Call T S
  stores_error : (now : ℕ) (request : KeyedRequest) (e : ErrorCode) → Call T S
  works : (S → S) → Call T S

pub Attempt-cases :
    {A : Type 0} (m : Attempt A)
    → ((a : A) × (m ≡ returned a)) ⊎ ((e : ErrorCode) × (m ≡ threw e)) ⊎ (m ≡ duplicate_key)
Attempt-cases (returned a) = inl (a, refl)
Attempt-cases (threw e) = inr (inl (e, refl))
Attempt-cases duplicate_key = inr (inr refl)

module _ {T S : Type 0} where
  abbrev after_keys :
      List (IdempotencyKey T) × S → Attempt (List (IdempotencyKey T)) → List (IdempotencyKey T) × S
  after_keys (rows, s) (returned rows') = (rows', s)
  after_keys (rows, s) (threw e) = (rows, s)
  after_keys (rows, s) duplicate_key = (rows, s)

  unfoldable pub call_step : List (IdempotencyKey T) × S → Call T S → List (IdempotencyKey T) × S
  call_step db (runs now request execute on_replay) =
      committed db (with_idempotency db now request execute on_replay)
  call_step (rows, s) (looks_up now request) = (after rows (lookup_idempotency rows now request), s)
  call_step (rows, s) (stores_error now request e) =
      after_keys (rows, s) (store_terminal_idempotency_error rows now request e)
  call_step (rows, s) (works f) = (rows, f s)

  unfoldable pub call_run :
      List (IdempotencyKey T) × S → List (Call T S) → List (IdempotencyKey T) × S
  unfolding call_step
  call_run db [] = db
  call_run db (c ∷ cs) = call_run (call_step db c) cs

  module _ (request : KeyedRequest) (v : ℕ × StoredValue T) where
    kept-after_lookup :
        (rows rows' : List (IdempotencyKey T)) (s s' : S) (now : ℕ) (other : KeyedRequest)
        (execute : S → Result ((T × Option T) × S)) (on_replay : T → Result T)
        (found : Option (StoredValue T)) (answer : T)
        → kept rows request ≡ some v
        → after_lookup now other execute on_replay s (found, rows) ≡ returned (answer, (rows', s'))
        → kept rows' request ≡ some v
    kept-after_lookup rows rows' s s' now other execute on_replay none answer h e =
        elim (Result-cases (execute s)) [
          | inl (((a, st), s2), r) ↦
              elim (Attempt-cases (insert_key rows now other (response (get_or st a)))) [
                | inl (rows2, r2) ↦
                    let there =
                      kept-insert_any request v rows rows2 now other (response (get_or st a)) h
                        r2 in
                    ground (arith, there, simp (r, r2) at e)
                | inr (inl (c, r2)) ↦ cc (simp (r, r2) at e)
                | inr (inr r2) ↦ cc (simp (r, r2) at e)
              ]
          | inr (c, r) ↦ cc (simp r at e)
        ]
    kept-after_lookup rows rows' s s' now other execute on_replay (some (response t)) answer h e =
        elim (Result-cases (on_replay t)) [
          | inl (a, r) ↦ ground (arith, h, simp r at e)
          | inr (c, r) ↦ cc (simp r at e)
        ]
    kept-after_lookup rows rows' s s' now other execute on_replay (some (terminal_error c)) answer h
          e =
        cc

    kept-with_idempotency :
        (rows : List (IdempotencyKey T)) (s : S) (now : ℕ) (other : KeyedRequest)
        (execute : S → Result ((T × Option T) × S)) (on_replay : T → Result T)
        → kept rows request ≡ some v
        → kept
            (committed (rows, s) (with_idempotency (rows, s) now other execute on_replay)).0
            request
          ≡ some v
    unfolding with_idempotency
    kept-with_idempotency rows s now other execute on_replay h =
        elim (Result-cases (lookup_idempotency rows now other)) [
          | inr (c, r) ↦ rw r h
          | inl ((found, rows2), r) ↦
              let kept2 = kept-lookup request v rows rows2 now other found h r in
              elim (Attempt-cases (after_lookup now other execute on_replay s (found, rows2))) [
                | inl ((a, (rows3, s3)), r2) ↦
                    rw (r, r2)
                      (kept-after_lookup rows2 rows3 s s3 now other execute on_replay found a kept2
                        r2)
                | inr (inl (c, r2)) ↦ rw (r, r2) h
                | inr (inr r2) ↦ rw (r, r2) h
              ]
        ]

    kept-call_step :
        (db : List (IdempotencyKey T) × S) (c : Call T S)
        → kept db.0 request ≡ some v
        → kept (call_step db c).0 request ≡ some v
    unfolding call_step store_terminal_idempotency_error
    kept-call_step db (runs now other execute on_replay) h =
        kept-with_idempotency db.0 db.1 now other execute on_replay h
    kept-call_step db (looks_up now other) h =
        elim (Result-cases (lookup_idempotency db.0 now other)) [
          | inl ((found, rows2), r) ↦ rw r (kept-lookup request v db.0 rows2 now other found h r)
          | inr (c, r) ↦ rw r h
        ]
    kept-call_step db (stores_error now other c) h =
        elim (Attempt-cases (insert_key db.0 now other (terminal_error c))) [
          | inl (rows2, r) ↦
              rw r (kept-insert_any request v db.0 rows2 now other (terminal_error c) h r)
          | inr (inl (e, r)) ↦ rw r h
          | inr (inr r) ↦ rw r h
        ]
    kept-call_step db (works f) h = h

    pub kept-call_run :
        (db : List (IdempotencyKey T) × S) (cs : List (Call T S))
        → kept db.0 request ≡ some v
        → kept (call_run db cs).0 request ≡ some v
    unfolding call_run
    kept-call_run db [] h = h
    kept-call_run db (c ∷ cs) h = kept-call_run (call_step db c) cs (kept-call_step db c h)
