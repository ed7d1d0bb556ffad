-- ===== src/Events/Versions.antt =====
-- src/clubs/events.ts: the versions of an answer. The view has the highest one, and the next is free.
use clawclub_server.Common.{
  ℕ, ◌<◌, ◌≤◌, ◌≡◌, refl, sym, ◌∙◌, ◌≢◌, inl, inr, true, false, Option, none, some, List, [], ◌∷◌,
  arith, leb, if◌then◌else◌, find, Result, err, Option-cases, ==_iff,
}
use clawclub_server.Errors.{version_conflict}
use clawclub_server.Events.Rsvps.{
  RsvpResponse, cancelled, RsvpRow, is_key, insert_latest, current_event_rsvps,
  read_current_event_rsvp, count_live_yes_rsvps, resolve_stored_rsvp_response,
}
use clawclub_server.Events.Handlers.{
  EventsDb, AccessibleMembership, TxContext, RsvpOutcome, Rsvp, has_version, rsvp_row,
  cancel_current, store_rsvp, assert_rsvp_allowed, answer_rsvp, cancel_rsvp, rsvp_event,
  with_retries, retry_serialization_failures, cancel_event_rsvp, find_target, or_missing,
}

abbrev better : RsvpRow → Option RsvpRow → Option RsvpRow
better r none = some r
better r (some s) = some (if leb s.version_no r.version_no then r else s)

-- The answer of a membership with the highest version.
pub newest : ℕ → ℕ → List RsvpRow → Option RsvpRow
newest event_id membership_id [] = none
newest event_id membership_id (r ∷ rows) =
    if is_key event_id membership_id r
    then better r (newest event_id membership_id rows)
    else newest event_id membership_id rows

module _ (event_id membership_id : ℕ) where
  find-insert_latest :
      (r : RsvpRow) (view : List RsvpRow)
      → find (is_key event_id membership_id) (insert_latest r view) ≡ (
          if is_key event_id membership_id r
          then better r (find (is_key event_id membership_id) view)
          else find (is_key event_id membership_id) view)
  unfolding insert_latest
  find-insert_latest r [] = ground arith
  find-insert_latest r (s ∷ view) = ground (
    arith,
    find-insert_latest r view,
    ==_iff r.event_content_id event_id,
    ==_iff r.membership_id membership_id,
    ==_iff s.event_content_id event_id,
    ==_iff s.membership_id membership_id,
    ==_iff s.event_content_id r.event_content_id,
    ==_iff s.membership_id r.membership_id,
  )

-- The row of the view `current_event_rsvps` is the answer with the highest version.
pub read_current-eq-newest :
    (event_id membership_id : ℕ) (rows : List RsvpRow)
    → read_current_event_rsvp rows event_id membership_id ≡ newest event_id membership_id rows
unfolding read_current_event_rsvp current_event_rsvps newest
read_current-eq-newest event_id membership_id [] = refl
read_current-eq-newest event_id membership_id (r ∷ rows) =
    rw (find-insert_latest event_id membership_id r (current_event_rsvps rows))
      (rw (read_current-eq-newest event_id membership_id rows))

-- No row of a membership has a version above that of its newest answer.
above_newest :
    (r : RsvpRow) (rows : List RsvpRow)
    → ((s : RsvpRow)
        → newest r.event_content_id r.membership_id rows ≡ some s
        → s.version_no < r.version_no)
    → has_version rows r ≡ false
unfolding newest
above_newest r [] h = refl
above_newest r (s ∷ rows) h = elim (Option-cases (newest r.event_content_id r.membership_id rows)) [
  | inl e ↦ ground (arith, h s, e, above_newest r rows (λ t k. cc (sym e ∙ k)))
  | inr (t, e) ↦ ground (arith, e, h s, h t, above_newest r rows (λ u k. newer t u e k))
]
  where
    newer :
        (t u : RsvpRow)
        → newest r.event_content_id r.membership_id rows ≡ some t
        → newest r.event_content_id r.membership_id rows ≡ some u
        → u.version_no < r.version_no
    newer t u e k = ground (arith, e, k, h s, h t)

module _ (db : EventsDb) (tx : TxContext) (rsvp : Rsvp) where
  abbrev current : Option RsvpRow
  current = read_current_event_rsvp db.event_rsvps rsvp.event.content_id rsvp.membership_id

  next_version_free :
      (response : RsvpResponse) (note : Option ℕ)
      → has_version db.event_rsvps (rsvp_row tx rsvp current response note) ≡ false
  next_version_free response note =
      above_newest (rsvp_row tx rsvp current response note) db.event_rsvps (λ s e.
        let here = read_current-eq-newest rsvp.event.content_id rsvp.membership_id db.event_rsvps in
        ground (arith, here, e))

  -- Storing the next version succeeds, unless a transaction that the snapshot does not show has it.
  store_rsvp_succeeds :
      (response : RsvpResponse) (note : Option ℕ)
      → tx.key_taken ≡ false
      → store_rsvp db tx rsvp current response note ≢ err version_conflict
  unfolding store_rsvp
  store_rsvp_succeeds response note free = rw (next_version_free response note, free) (λ e. cc)

  answer_rsvp-ne-conflict :
      (requested : RsvpResponse) (note : Option ℕ)
      → tx.lock_acquired ≡ true
      → tx.key_taken ≡ false
      → answer_rsvp db tx rsvp requested note ≢ err version_conflict
  unfolding answer_rsvp assert_rsvp_allowed
  answer_rsvp-ne-conflict requested note h free = ground (
    arith,
    h,
    store_rsvp_succeeds
        (resolve_stored_rsvp_response requested current
          (count_live_yes_rsvps db.event_rsvps rsvp.event.content_id) rsvp.event.capacity)
        note free,
  )

  cancel_current-ne-conflict :
      (found : Option RsvpRow)
      → current ≡ found
      → tx.key_taken ≡ false
      → cancel_current db tx rsvp found ≢ err version_conflict
  cancel_current-ne-conflict none e free = λ k. cc
  cancel_current-ne-conflict (some r) e free =
      rw (← e) (ground (arith, store_rsvp_succeeds cancelled none free))

  cancel_rsvp-ne-conflict :
      tx.lock_acquired ≡ true → tx.key_taken ≡ false → cancel_rsvp db tx rsvp ≢ err version_conflict
  unfolding cancel_rsvp assert_rsvp_allowed
  cancel_rsvp-ne-conflict h free = ground (arith, h, cancel_current-ne-conflict current refl free)

within_limit :
    (n : ℕ) → n ≤ retry_serialization_failures → leb n retry_serialization_failures ≡ true
within_limit n h = ground arith

module _ (db : EventsDb) (tx : TxContext) (actor event_id : ℕ)
    (memberships : List AccessibleMembership) where
  -- A version conflict has one of three causes: the lock of the membership was not free, a
  -- transaction that the snapshot does not show took the version, or (for `rsvpEvent`) the database
  -- refused more than two attempts for a serialization failure. Without these an answer and a
  -- cancellation never end in one: the version that they write is free.
  pub rsvp-ne-version_conflict :
      (response : RsvpResponse) (note : Option ℕ)
      → tx.lock_acquired ≡ true
      → tx.key_taken ≡ false
      → tx.serialization_failures ≤ retry_serialization_failures
      → (rsvp_event db tx actor event_id response note memberships ≢ err version_conflict)
        × (cancel_event_rsvp db tx actor event_id memberships ≢ err version_conflict)
  unfolding rsvp_event cancel_event_rsvp with_retries
  rsvp-ne-version_conflict response note h free few = (
    rw (within_limit tx.serialization_failures few) (
        go (find_target db tx.now actor event_id memberships)
          (λ rsvp. answer_rsvp db tx rsvp response note)
          (λ rsvp. answer_rsvp-ne-conflict db tx rsvp response note h free)),
    go (find_target db tx.now actor event_id memberships) (λ rsvp. cancel_rsvp db tx rsvp)
        (λ rsvp. cancel_rsvp-ne-conflict db tx rsvp h free),
  )
    where
      go :
          (target : Option Rsvp) (handler : Rsvp → Result (RsvpOutcome × EventsDb))
          → ((rsvp : Rsvp) → handler rsvp ≢ err version_conflict)
          → or_missing db target handler ≢ err version_conflict
      go none handler k = λ e. cc
      go (some rsvp) handler k = k rsvp
