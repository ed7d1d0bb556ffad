-- ===== src/Idempotency/Keys.antt =====
-- src/idempotency.ts: the table of client keys, its lookup, and the wrapper of a transaction.
use clawclub_server.Common.{
  ℕ, Bool, ◌&&◌, Option, none, some, List, ◌∷◌, ◌==◌, if◌then◌else◌, get_or, find, any,
  update_where, Result, ok, err, ◌>>◌, guard,
}
use clawclub_server.Errors.{ErrorCode, client_key_conflict}

-- What a row keeps of the first call: its response, or the error that ends every call of the key. Of
-- an error the model keeps its code.
pub data StoredValue (T : Type 0) : Type 0 where
  response : T → StoredValue T
  terminal_error : ErrorCode → StoredValue T

pub record IdempotencyKey (T : Type 0) : Type 0 where
  pub client_key : ℕ
  pub actor_context : ℕ
  pub request_hash : ℕ
  pub response_envelope : StoredValue T
  pub last_seen_at : ℕ

-- A call that carries a client key, with the hash of its request.
pub record KeyedRequest : Type 0 where
  pub client_key : ℕ
  pub actor_context : ℕ
  pub request_hash : ℕ

-- A transaction returns, throws an `AppError`, or breaks the primary key of the table.
pub data Attempt (A : Type 0) : Type 0 where
  returned : A → Attempt A
  threw : ErrorCode → Attempt A
  duplicate_key : Attempt A

-- A transaction that does not return changes nothing.
abbrev pub committed : {S A : Type 0} → S → Attempt (A × S) → S
committed db (returned (a, db')) = db'
committed db (threw e) = db
committed db duplicate_key = db

module _ {A B : Type 0} where
  abbrev pub attempt : Attempt A → (A → Attempt B) → Attempt B
  attempt (returned a) f = f a
  attempt (threw e) f = threw e
  attempt duplicate_key f = duplicate_key

abbrev pub thrown : {A : Type 0} → Result A → Attempt A
thrown (ok a) = returned a
thrown (err e) = threw e

module _ {T : Type 0} where
  abbrev pub is_row_of : KeyedRequest → IdempotencyKey T → Bool
  is_row_of request row =
      row.actor_context == request.actor_context && row.client_key == request.client_key

  abbrev pub touch : ℕ → IdempotencyKey T → IdempotencyKey T
  touch now row = record row { last_seen_at = now }

  abbrev pub check_hash :
      List (IdempotencyKey T)
      → ℕ
      → KeyedRequest
      → Option (IdempotencyKey T)
      → Result (Option (StoredValue T) × List (IdempotencyKey T))
  check_hash rows now request none = ok (none, rows)
  check_hash rows now request (some row) = do
    guard (row.request_hash == request.request_hash) client_key_conflict
    ok (some row.response_envelope, update_where (is_row_of request) (touch now) rows)

  -- `none` is a miss. A hit is noted in the row.
  unfoldable pub lookup_idempotency :
      List (IdempotencyKey T)
      → ℕ
      → KeyedRequest
      → Result (Option (StoredValue T) × List (IdempotencyKey T))
  lookup_idempotency rows now request = check_hash rows now request (find (is_row_of request) rows)

  abbrev pub new_row : ℕ → KeyedRequest → StoredValue T → IdempotencyKey T
  new_row now request value = record {
    client_key = request.client_key;
    actor_context = request.actor_context;
    request_hash = request.request_hash;
    response_envelope = value;
    last_seen_at = now;
  }

  -- primary key (actor_context, client_key)
  unfoldable pub insert_key :
      List (IdempotencyKey T) → ℕ → KeyedRequest → StoredValue T → Attempt (List (IdempotencyKey T))
  insert_key rows now request value =
      if any (is_row_of request) rows
      then duplicate_key
      else returned (new_row now request value ∷ rows)

  unfoldable pub store_terminal_idempotency_error :
      List (IdempotencyKey T) → ℕ → KeyedRequest → ErrorCode → Attempt (List (IdempotencyKey T))
  store_terminal_idempotency_error rows now request e =
      insert_key rows now request (terminal_error e)

  module _ {S : Type 0} where
    abbrev pub replay :
        (T → Result T)
        → S
        → StoredValue T
        → List (IdempotencyKey T)
        → Attempt (T × (List (IdempotencyKey T) × S))
    replay on_replay s (response t) rows =
        attempt (thrown (on_replay t)) (λ r. returned (r, (rows, s)))
    replay on_replay s (terminal_error e) rows = threw e

    abbrev pub first_call :
        ℕ
        → KeyedRequest
        → List (IdempotencyKey T)
        → (T × Option T) × S
        → Attempt (T × (List (IdempotencyKey T) × S))
    first_call now request rows ((answer, stored), s) =
        attempt (insert_key rows now request (response (get_or stored answer)))
          (λ rows'. returned (answer, (rows', s)))

    abbrev pub after_lookup :
        ℕ
        → KeyedRequest
        → (S → Result ((T × Option T) × S))
        → (T → Result T)
        → S
        → Option (StoredValue T) × List (IdempotencyKey T)
        → Attempt (T × (List (IdempotencyKey T) × S))
    after_lookup now request execute on_replay s (some value, rows) = replay on_replay s value rows
    after_lookup now request execute on_replay s (none, rows) =
        attempt (thrown (execute s)) (λ r. first_call now request rows r)

    -- The tables of the transaction are the keys and all else. `execute` answers the response, and
    -- what to keep of it where that is something else.
    unfoldable pub with_idempotency :
        List (IdempotencyKey T) × S
        → ℕ
        → KeyedRequest
        → (execute : S → Result ((T × Option T) × S)) → (on_replay : T → Result T)
        → Attempt (T × (List (IdempotencyKey T) × S))
    with_idempotency (rows, s) now request execute on_replay =
        attempt (thrown (lookup_idempotency rows now request))
          (λ found. after_lookup now request execute on_replay s found)
