-- ===== src/Idempotency/Replay.antt =====
-- src/idempotency.ts: a call that is sent again.
use clawclub_server.Common.{
  ℕ, ◌≡◌, refl, inl, inr, false, ◌&&◌, Option, none, some, List, [], ◌∷◌, arith, ◌==◌, find, any,
  update_where, ok, Bool-cases,
}
use mathlib.Core.Option
use clawclub_server.Idempotency.Keys.{
  StoredValue, IdempotencyKey, KeyedRequest, returned, is_row_of, touch, check_hash,
  lookup_idempotency, new_row, insert_key,
}

-- Requests of one client key in one context.
unfoldable pub SameKey : KeyedRequest → KeyedRequest → Type 0
SameKey a b = (a.actor_context ≡ b.actor_context) × (a.client_key ≡ b.client_key)

module _ {T : Type 0} where
  -- What the table keeps under a key: the hash of the first request, and the value.
  unfoldable pub kept : List (IdempotencyKey T) → KeyedRequest → Option (ℕ × StoredValue T)
  kept rows request =
      Option.map (λ row. (row.request_hash, row.response_envelope)) (find (is_row_of request) rows)

  pub kept-touch :
      (rows : List (IdempotencyKey T)) (now : ℕ) (touched request : KeyedRequest)
      → kept (update_where (is_row_of touched) (touch now) rows) request ≡ kept rows request
  unfolding kept
  kept-touch [] now touched request = refl
  kept-touch (r ∷ rows) now touched request = ground (arith, kept-touch rows now touched request)

  find-free :
      (rows : List (IdempotencyKey T)) (request new : KeyedRequest)
      → SameKey new request
      → any (is_row_of new) rows ≡ false
      → find (is_row_of request) rows ≡ none
  unfolding SameKey
  find-free [] request new same free = refl
  find-free (r ∷ rows) request new same free =
      let rest : any (is_row_of new) rows ≡ false → find (is_row_of request) rows ≡ none =
        find-free rows request new same in
      ground (arith, rest)

  kept-insert :
      (rows : List (IdempotencyKey T)) (request : KeyedRequest) (v : ℕ × StoredValue T) (now : ℕ)
      (new : KeyedRequest) (value : StoredValue T)
      → kept rows request ≡ some v
      → any (is_row_of new) rows ≡ false
      → kept (new_row now new value ∷ rows) request ≡ some v
  unfolding kept SameKey
  kept-insert rows request v now new value h free =
      elim (Bool-cases
        (new.actor_context == request.actor_context && new.client_key == request.client_key)) [
          | inl same ↦
              let none_kept = find-free rows request new (ground (arith, same)) free in
              cc (rw none_kept at h)
          | inr other ↦ rw other h
        ]

  pub kept-insert_key :
      (rows rows' : List (IdempotencyKey T)) (now : ℕ) (request : KeyedRequest)
      (value : StoredValue T)
      → insert_key rows now request value ≡ returned rows'
      → kept rows' request ≡ some (request.request_hash, value)
  unfolding kept insert_key
  kept-insert_key rows rows' now request value h = ground arith

  pub kept-same :
      (rows : List (IdempotencyKey T)) (a b : KeyedRequest)
      → SameKey a b
      → kept rows a ≡ kept rows b
  unfolding kept SameKey
  kept-same rows a b (ctx, key) = rw (ctx, key) refl

  module _ (request : KeyedRequest) (v : ℕ × StoredValue T) where
    kept-check_hash :
        (rows rows' : List (IdempotencyKey T)) (now : ℕ) (other : KeyedRequest)
        (row : Option (IdempotencyKey T)) (found : Option (StoredValue T))
        → kept rows request ≡ some v
        → check_hash rows now other row ≡ ok (found, rows')
        → kept rows' request ≡ some v
    kept-check_hash rows rows' now other none found h e = ground arith
    kept-check_hash rows rows' now other (some row) found h e =
        ground (arith, kept-touch rows now other request)

    -- A lookup, whether it hits or not, keeps what is there.
    pub kept-lookup :
        (rows rows' : List (IdempotencyKey T)) (now : ℕ) (other : KeyedRequest)
        (found : Option (StoredValue T))
        → kept rows request ≡ some v
        → lookup_idempotency rows now other ≡ ok (found, rows')
        → kept rows' request ≡ some v
    unfolding lookup_idempotency
    kept-lookup rows rows' now other found h e =
        kept-check_hash rows rows' now other (find (is_row_of other) rows) found h e

    pub kept-insert_any :
        (rows rows' : List (IdempotencyKey T)) (now : ℕ) (other : KeyedRequest)
        (value : StoredValue T)
        → kept rows request ≡ some v
        → insert_key rows now other value ≡ returned rows'
        → kept rows' request ≡ some v
    unfolding insert_key
    kept-insert_any rows rows' now other value h e =
        elim (Bool-cases (any (is_row_of other) rows)) [
          | inl taken ↦ cc (rw taken at e)
          | inr free ↦
              ground (arith, kept-insert rows request v now other value h free, rw free at e)
        ]
