-- ===== src/Events/Capacity.antt =====
-- src/clubs/events.ts: the seats of an event with a capacity.
use clawclub_server.Common.{
  ℕ, ◌+◌, ◌-◌, ◌≤◌, ◌<◌, ◌≡◌, refl, ◌≢◌, inl, inr, true, Option, none, some, List, [], ◌∷◌, ◌||◌,
  leb, arith, if◌then◌else◌, find, All, Result, ok, after, Bool-cases, Option-cases, All-find,
  Result-cases,
}
use native.Mathlib.Decide.{ℕ_discrete}
use clawclub_server.Events.Rsvps.{
  RsvpResponse, answer_yes, answer_maybe, answer_waitlist, answer_no, cancelled, is_yes,
  is_cancelled, RsvpRow, occupied_by, current_event_rsvps, read_current_event_rsvp,
  count_live_yes_rsvps, resolve_stored_rsvp_response, count-insert_latest, count-insert_latest_ne,
}
use clawclub_server.Events.Handlers.{
  is_visible, is_same_answer, cancel_current, rsvp_row, rsvp_notification, ContentVersionRow,
  EventsDb, AccessibleMembership, TxContext, RsvpOutcome, insert_event_rsvp_notification,
  RsvpNotification, has_version, Rsvp, store_rsvp, assert_rsvp_allowed, answer_rsvp, cancel_rsvp,
  rsvp_event, with_retries, cancel_event_rsvp, find_target, or_missing, resolve_event_identity,
}

seats : EventsDb → ℕ → ℕ
seats db event_id = count_live_yes_rsvps db.event_rsvps event_id

notification_keeps_rsvps :
    (db : EventsDb) (n : RsvpNotification)
    → (insert_event_rsvp_notification db n).event_rsvps ≡ db.event_rsvps
unfolding insert_event_rsvp_notification
notification_keeps_rsvps db n = ground arith

notification_keeps_contents :
    (db : EventsDb) (n : RsvpNotification)
    → (insert_event_rsvp_notification db n).contents ≡ db.contents
unfolding insert_event_rsvp_notification
notification_keeps_contents db n = ground arith

-- What a stored answer does to the tables, and to the seats of an event.
module _ (db : EventsDb) (tx : TxContext) (rsvp : Rsvp) (current : Option RsvpRow)
    (response : RsvpResponse) (note : Option ℕ) {outcome : RsvpOutcome} {db' : EventsDb}
    (done : store_rsvp db tx rsvp current response note ≡ ok (outcome, db')) where
  store_rsvp_appends :
      (db'.event_rsvps ≡ rsvp_row tx rsvp current response note ∷ db.event_rsvps)
      × (db'.contents ≡ db.contents)
  unfolding store_rsvp
  store_rsvp_appends =
      let row = rsvp_row tx rsvp current response note in
      let n = rsvp_notification tx rsvp current response note in
      let after_insert = record db { event_rsvps = row ∷ db.event_rsvps } in
      elim (Bool-cases (has_version db.event_rsvps row || tx.key_taken)) [
        | inl clash ↦ cc (rw clash at done)
        | inr free ↦ ground (
          arith,
          rw free at done,
          notification_keeps_rsvps after_insert n,
          notification_keeps_contents after_insert n,
        )
      ]

  -- The seat of the old answer is freed, and that of the new one is taken.
  store_rsvp-seats :
      read_current_event_rsvp db.event_rsvps rsvp.event.content_id rsvp.membership_id ≡ current
      → seats db' rsvp.event.content_id + occupied_by current
        ≡ seats db rsvp.event.content_id + (if is_yes response then 1 else 0)
  unfolding seats read_current_event_rsvp count_live_yes_rsvps current_event_rsvps
  store_rsvp-seats e =
      let row = rsvp_row tx rsvp current response note in
      let view = current_event_rsvps db.event_rsvps in
      let count =
        count-insert_latest rsvp.event.content_id row view (λ s found. ground (arith, found, e))
          refl in
      rw (store_rsvp_appends.0) (rw (e) at count)

  store_rsvp-seats_ne :
      (event_id : ℕ) → rsvp.event.content_id ≢ event_id → seats db' event_id ≡ seats db event_id
  unfolding seats count_live_yes_rsvps current_event_rsvps
  store_rsvp-seats_ne event_id h = rw (store_rsvp_appends.0) (
      count-insert_latest_ne event_id (rsvp_row tx rsvp current response note)
        (current_event_rsvps db.event_rsvps) h)

-- The event has the capacity, and no more seats are taken.
pub record WithinCapacity (event_id capacity : ℕ) (db : EventsDb) : Type 0 where
  pub fixed : All (λ e. e.content_id ≡ event_id → e.capacity ≡ some capacity) db.contents
  pub fits : count_live_yes_rsvps db.event_rsvps event_id ≤ capacity

module _ (event_id cap : ℕ) (db : EventsDb) (tx : TxContext) (rsvp : Rsvp) where
  abbrev current : Option RsvpRow
  current = read_current_event_rsvp db.event_rsvps rsvp.event.content_id rsvp.membership_id

  -- A seat is taken only if one is free for the membership.
  abbrev IsSeated : RsvpResponse → Type 0
  IsSeated response =
      is_yes response ≡ true
      → rsvp.event.content_id ≡ event_id
      → seats db event_id - occupied_by current < cap

  store_rsvp-WithinCapacity :
      (response : RsvpResponse) (note : Option ℕ)
      → WithinCapacity event_id cap db
      → IsSeated response
      → WithinCapacity event_id cap (after db (store_rsvp db tx rsvp current response note))
  unfolding seats
  store_rsvp-WithinCapacity response note w h =
      elim (Result-cases (store_rsvp db tx rsvp current response note)) [
        | inr (e, refused) ↦ rw refused w
        | inl ((outcome, db'), done) ↦
            let (_, same) = store_rsvp_appends db tx rsvp current response note done in
            rw done (record {
              fixed = rw same w.fixed;
              fits = elim (ℕ_discrete rsvp.event.content_id event_id) [
                | yes here ↦ ground (
                  arith,
                  here,
                  h,
                  w.fits,
                  store_rsvp-seats db tx rsvp current response note done refl,
                )
                | no there ↦
                    rw (store_rsvp-seats_ne db tx rsvp current response note done event_id there)
                      w.fits
              ];
            })
      ]

  resolve-IsSeated :
      (requested : RsvpResponse)
      → (rsvp.event.content_id ≡ event_id → rsvp.event.capacity ≡ some cap)
      → IsSeated (
          resolve_stored_rsvp_response requested current
            (count_live_yes_rsvps db.event_rsvps rsvp.event.content_id)
            rsvp.event.capacity)
  unfolding seats resolve_stored_rsvp_response
  resolve-IsSeated answer_yes h y e = ground (arith, h e, e)
  resolve-IsSeated answer_maybe h y e = cc
  resolve-IsSeated answer_waitlist h y e = cc
  resolve-IsSeated answer_no h y e = cc
  resolve-IsSeated cancelled h y e = cc

  answer_rsvp-WithinCapacity :
      (requested : RsvpResponse) (note : Option ℕ)
      → WithinCapacity event_id cap db
      → (rsvp.event.content_id ≡ event_id → rsvp.event.capacity ≡ some cap)
      → WithinCapacity event_id cap (after db (answer_rsvp db tx rsvp requested note))
  unfolding answer_rsvp
  answer_rsvp-WithinCapacity requested note w h =
      let response =
        resolve_stored_rsvp_response requested current
          (count_live_yes_rsvps db.event_rsvps rsvp.event.content_id) rsvp.event.capacity in
      elim (Result-cases (assert_rsvp_allowed tx rsvp.event)) [
        | inr (code, refused) ↦ rw refused w
        | inl (_, allowed) ↦ elim (Bool-cases (is_same_answer current response note)) [
          | inl same ↦ rw (allowed, same) w
          | inr changed ↦
              rw (allowed, changed)
                (store_rsvp-WithinCapacity response note w (resolve-IsSeated requested h))
        ]
      ]

  cancel_current-WithinCapacity :
      (found : Option RsvpRow)
      → current ≡ found
      → WithinCapacity event_id cap db
      → WithinCapacity event_id cap (after db (cancel_current db tx rsvp found))
  cancel_current-WithinCapacity none e w = w
  cancel_current-WithinCapacity (some r) e w = elim (Bool-cases (is_cancelled r.response)) [
    | inl over ↦ rw over w
    | inr live ↦ rw (live, ← e) (store_rsvp-WithinCapacity cancelled none w (λ y _. cc))
  ]

  cancel_rsvp-WithinCapacity :
      WithinCapacity event_id cap db
      → WithinCapacity event_id cap (after db (cancel_rsvp db tx rsvp))
  unfolding cancel_rsvp
  cancel_rsvp-WithinCapacity w = elim (Result-cases (assert_rsvp_allowed tx rsvp.event)) [
    | inr (code, refused) ↦ rw refused w
    | inl (_, allowed) ↦ rw allowed (cancel_current-WithinCapacity current refl w)
  ]

-- What a member asks for, in a transaction.
pub data RsvpCall : Type 0 where
  rsvps :
      TxContext
      → (actor_member_id event_id : ℕ) → RsvpResponse
      → Option ℕ
      → List AccessibleMembership
      → RsvpCall
  cancels : TxContext → (actor_member_id event_id : ℕ) → List AccessibleMembership → RsvpCall

pub rsvp_step : EventsDb → RsvpCall → EventsDb
rsvp_step db (rsvps tx actor event_id response note memberships) =
    after db (rsvp_event db tx actor event_id response note memberships)
rsvp_step db (cancels tx actor event_id memberships) =
    after db (cancel_event_rsvp db tx actor event_id memberships)

pub rsvp_run : EventsDb → List RsvpCall → EventsDb
rsvp_run db [] = db
rsvp_run db (c ∷ cs) = rsvp_run (rsvp_step db c) cs

module _ (event_id cap : ℕ) (db : EventsDb) (w : WithinCapacity event_id cap db) where
  -- The event that a handler finds has the capacity of its row.
  find_target-capacity :
      (now actor asked : ℕ) (memberships : List AccessibleMembership) (rsvp : Rsvp)
      → find_target db now actor asked memberships ≡ some rsvp
      → rsvp.event.content_id ≡ event_id
      → rsvp.event.capacity ≡ some cap
  unfolding resolve_event_identity
  find_target-capacity now actor asked memberships rsvp e same =
      elim (Option-cases (find (is_visible asked now memberships) db.contents)) [
        | inl none_found ↦ cc (rw none_found at e)
        | inr (row, found) ↦
            let row_capacity =
              All-find (λ (r : ContentVersionRow). r.content_id ≡ event_id → r.capacity ≡ some cap)
                (is_visible asked now memberships) db.contents w.fixed found in
            ground (arith, rw found at e, row_capacity)
      ]

  handler-WithinCapacity :
      (target : Option Rsvp) (handler : Rsvp → Result (RsvpOutcome × EventsDb))
      → ((rsvp : Rsvp) → target ≡ some rsvp → WithinCapacity event_id cap (after db (handler rsvp)))
      → WithinCapacity event_id cap (after db (or_missing db target handler))
  handler-WithinCapacity none handler h = w
  handler-WithinCapacity (some rsvp) handler h = h rsvp refl

  rsvp_step-WithinCapacity : (c : RsvpCall) → WithinCapacity event_id cap (rsvp_step db c)
  unfolding rsvp_step rsvp_event with_retries cancel_event_rsvp
  rsvp_step-WithinCapacity (rsvps tx actor asked response note memberships) =
      elim (Bool-cases (leb tx.serialization_failures 2)) [
        | inr refused ↦ rw refused w
        | inl last ↦ rw last (
            handler-WithinCapacity (find_target db tx.now actor asked memberships) _ (λ rsvp e.
              answer_rsvp-WithinCapacity event_id cap db tx rsvp response note w
                (find_target-capacity tx.now actor asked memberships rsvp e)))
      ]
  rsvp_step-WithinCapacity (cancels tx actor asked memberships) =
      handler-WithinCapacity (find_target db tx.now actor asked memberships) _
        (λ rsvp e. cancel_rsvp-WithinCapacity event_id cap db tx rsvp w)

-- However members answer and cancel, and however often, the 'yes' answers to an event never exceed
-- its capacity, if they did not at first and all rows of the event have that capacity.
pub rsvp_run-WithinCapacity :
    (event_id cap : ℕ) (db : EventsDb) (cs : List RsvpCall)
    → WithinCapacity event_id cap db
    → WithinCapacity event_id cap (rsvp_run db cs)
unfolding rsvp_run
rsvp_run-WithinCapacity event_id cap db [] w = w
rsvp_run-WithinCapacity event_id cap db (c ∷ cs) w =
    rsvp_run-WithinCapacity event_id cap (rsvp_step db c) cs
      (rsvp_step-WithinCapacity event_id cap db w c)
