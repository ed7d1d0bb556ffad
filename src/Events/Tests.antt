-- ===== src/Events/Tests.antt =====
-- Runs of the RSVP handlers (src/clubs/events.ts) on a small event.
use clawclub_server.Common.{ℕ, ◌≡◌, refl, ◌≢◌, true, false, none, some, List, [], ◌∷◌, arith, err}
use clawclub_server.Errors.{version_conflict}
use clawclub_server.Events.Rsvps.{
  RsvpRow, answer_yes, answer_no, count_live_yes_rsvps, current_event_rsvps,
  read_current_event_rsvp,
}
use clawclub_server.Events.Handlers.{
  EventsDb, TxContext, AccessibleMembership, rsvp_event, cancel_event_rsvp,
}
use clawclub_server.Events.Capacity.{
  WithinCapacity, RsvpCall, rsvps, cancels, rsvp_run, rsvp_run-WithinCapacity,
}
use clawclub_server.Events.Versions.{newest, read_current-eq-newest, rsvp-ne-version_conflict}

-- An event with one seat, in club 3.
abbrev one_seat : EventsDb
one_seat = record {
  contents =
      record {
        content_id = 11;
        club_id = 3;
        is_event = true;
        author_member_id = 7;
        is_archived = false;
        is_deleted = false;
        is_published = true;
        expires_at = none;
        starts_at = some 1000;
        capacity = some 1;
      }
      ∷ [];
  event_rsvps = [];
  member_names = (8, "Ada") ∷ (9, "Bo") ∷ [];
  member_notifications = [];
}

abbrev at : ℕ → TxContext
at now = record {
  now = now;
  new_id = now;
  lock_acquired = true;
  serialization_failures = 0;
  key_taken = false;
}

abbrev seat : ℕ → AccessibleMembership
seat id = record { membership_id = id; club_id = 3 }

-- Two members want the one seat; the first gives it up, and the second asks again.
abbrev calls : List RsvpCall
calls =
    rsvps (at 1) 8 11 answer_yes none (seat 80 ∷ [])
    ∷ rsvps (at 2) 9 11 answer_yes none (seat 90 ∷ [])
    ∷ cancels (at 3) 8 11 (seat 80 ∷ [])
    ∷ rsvps (at 4) 9 11 answer_yes none (seat 90 ∷ [])
    ∷ []

one_seat-WithinCapacity : WithinCapacity 11 1 one_seat
unfolding count_live_yes_rsvps current_event_rsvps
one_seat-WithinCapacity = record { fixed = ground arith; fits = ground arith }

rsvp_run-WithinCapacity_example : WithinCapacity 11 1 (rsvp_run one_seat calls)
rsvp_run-WithinCapacity_example =
    rsvp_run-WithinCapacity 11 1 one_seat calls one_seat-WithinCapacity

abbrev answer : ℕ → ℕ → RsvpRow
answer membership_id version = record {
  id = version;
  event_content_id = 11;
  membership_id = membership_id;
  response = answer_no;
  note = none;
  version_no = version;
  supersedes_rsvp_id = none;
  created_by_member_id = 8;
  created_at = 1;
}

read_current-eq-newest_example :
    read_current_event_rsvp (answer 80 1 ∷ answer 90 1 ∷ answer 80 2 ∷ []) 11 80
    ≡ newest 11 80 (answer 80 1 ∷ answer 90 1 ∷ answer 80 2 ∷ [])
read_current-eq-newest_example =
    read_current-eq-newest 11 80 (answer 80 1 ∷ answer 90 1 ∷ answer 80 2 ∷ [])

rsvp-ne-version_conflict_example :
    (rsvp_event one_seat (at 1) 8 11 answer_yes none (seat 80 ∷ []) ≢ err version_conflict)
    × (cancel_event_rsvp one_seat (at 1) 8 11 (seat 80 ∷ []) ≢ err version_conflict)
rsvp-ne-version_conflict_example =
    rsvp-ne-version_conflict one_seat (at 1) 8 11 (seat 80 ∷ []) answer_yes none refl refl
      (omega arith)
