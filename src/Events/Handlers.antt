-- ===== src/Events/Handlers.antt =====
-- src/clubs/events.ts: `rsvpEvent` and `cancelEventRsvp`. The content that both return at the end is
-- read by src/clubs/content.ts, which is not modelled here: the outcome says what became of the answer.
use clawclub_server.Common.{
  String, ℕ, ◌+◌, Bool, true, false, not, ◌&&◌, ◌||◌, Option, none, some, List, ◌∷◌, leb, ◌==◌,
  if◌then◌else◌, find, any, Result, ok, err, ◌>>=◌, ◌>>◌, guard,
}
use mathlib.Core.Option
use text.Mathlib.Text.{◌==◌ as str_eq}
use clawclub_server.Errors.{invalid_state, version_conflict, event_rsvp_closed}
use clawclub_server.Events.Rsvps.{
  RsvpResponse, cancelled, is_cancelled, same_response, RsvpRow, read_current_event_rsvp,
  count_live_yes_rsvps, resolve_stored_rsvp_response, is_key,
}

-- A row of the join of `contents`, its current version, its club and its event details.
pub record ContentVersionRow : Type 0 where
  pub content_id : ℕ
  pub club_id : ℕ
  pub is_event : Bool
  pub author_member_id : ℕ
  pub is_archived : Bool
  pub is_deleted : Bool
  pub is_published : Bool
  pub expires_at : Option ℕ
  pub starts_at : Option ℕ
  pub capacity : Option ℕ

-- The payload's texts of event and club are left out.
pub record RsvpNotification : Type 0 where
  pub recipient_member_id : ℕ
  pub club_id : ℕ
  pub content_id : ℕ
  pub attendee_membership_id : ℕ
  pub attendee_member_id : ℕ
  pub attendee_public_name : String
  pub response : RsvpResponse
  pub previous_response : Option RsvpResponse
  pub note : Option ℕ
  pub created_at : ℕ

pub record EventsDb : Type 0 where
  pub contents : List ContentVersionRow
  pub event_rsvps : List RsvpRow
  pub member_names : List (ℕ × String)
  pub member_notifications : List RsvpNotification

pub record EventIdentity : Type 0 where
  pub content_id : ℕ
  pub club_id : ℕ
  pub is_event : Bool
  pub author_member_id : ℕ
  pub capacity : Option ℕ
  pub has_started : Bool

-- A membership of the actor that `accessibleMemberships` lists.
pub record AccessibleMembership : Type 0 where
  pub membership_id : ℕ
  pub club_id : ℕ

-- What a transaction is given: its time, the id for a new row, whether the lock was free, how many
-- attempts the database refused for a serialization failure (40001) before this one, and whether a
-- transaction that its snapshot does not show has taken the key of the row that it inserts.
pub record TxContext : Type 0 where
  pub now : ℕ
  pub new_id : ℕ
  pub lock_acquired : Bool
  pub serialization_failures : ℕ
  pub key_taken : Bool

pub data RsvpOutcome : Type 0 where
  missing unchanged : RsvpOutcome
  stored : RsvpResponse → RsvpOutcome

abbrev pub at_or_before : Option ℕ → ℕ → Bool
at_or_before none now = false
at_or_before (some t) now = leb t now

abbrev pub is_visible : ℕ → ℕ → List AccessibleMembership → ContentVersionRow → Bool
is_visible event_id now memberships e =
    e.content_id == event_id
    && any (λ m. m.club_id == e.club_id) memberships
    && not e.is_archived
    && not e.is_deleted
    && e.is_published
    && not (at_or_before e.expires_at now)

abbrev pub identity : ℕ → ContentVersionRow → EventIdentity
identity now e = record {
  content_id = e.content_id;
  club_id = e.club_id;
  is_event = e.is_event;
  author_member_id = e.author_member_id;
  capacity = e.capacity;
  has_started = at_or_before e.starts_at now;
}

unfoldable pub resolve_event_identity :
    EventsDb → ℕ → ℕ → List AccessibleMembership → Option EventIdentity
resolve_event_identity db now event_id memberships =
    Option.map (identity now) (find (is_visible event_id now memberships) db.contents)

unfoldable pub read_member_public_name : EventsDb → ℕ → Option String
read_member_public_name db member_id =
    Option.map (λ m. m.1) (find (λ m. m.0 == member_id) db.member_names)

-- Nobody is told of an own answer, nor of one whose author has no name.
notify_named : EventsDb → RsvpNotification → Option String → EventsDb
notify_named db n none = db
notify_named db n (some name) = if str_eq name "" then db else record db {
  member_notifications = record n { attendee_public_name = name } ∷ db.member_notifications;
}

unfoldable pub insert_event_rsvp_notification : EventsDb → RsvpNotification → EventsDb
unfolding notify_named
insert_event_rsvp_notification db n =
    if n.recipient_member_id == n.attendee_member_id
    then db
    else notify_named db n (read_member_public_name db n.attendee_member_id)

-- The unique constraint on event, membership and version.
abbrev pub has_version : List RsvpRow → RsvpRow → Bool
has_version rows r =
    any (λ s. is_key r.event_content_id r.membership_id s && s.version_no == r.version_no) rows

unfoldable pub insert_rsvp : EventsDb → TxContext → RsvpRow → Result EventsDb
insert_rsvp db tx r = do
  guard (not (has_version db.event_rsvps r || tx.key_taken)) version_conflict
  ok (record db { event_rsvps = r ∷ db.event_rsvps })

abbrev pub next_version : Option RsvpRow → ℕ
next_version none = 1
next_version (some r) = r.version_no + 1

pub record Rsvp : Type 0 where
  pub event : EventIdentity
  pub membership_id : ℕ
  pub actor_member_id : ℕ

-- The next version of the answer of a membership.
abbrev pub rsvp_row : TxContext → Rsvp → Option RsvpRow → RsvpResponse → Option ℕ → RsvpRow
rsvp_row tx rsvp current response note = record {
  id = tx.new_id;
  event_content_id = rsvp.event.content_id;
  membership_id = rsvp.membership_id;
  response = response;
  note = note;
  version_no = next_version current;
  supersedes_rsvp_id = Option.map (λ r. r.id) current;
  created_by_member_id = rsvp.actor_member_id;
  created_at = tx.now;
}

-- Without the attendee's name, which is read when it is inserted.
abbrev pub rsvp_notification :
    TxContext → Rsvp → Option RsvpRow → RsvpResponse → Option ℕ → RsvpNotification
rsvp_notification tx rsvp current response note = record {
  recipient_member_id = rsvp.event.author_member_id;
  club_id = rsvp.event.club_id;
  content_id = rsvp.event.content_id;
  attendee_membership_id = rsvp.membership_id;
  attendee_member_id = rsvp.actor_member_id;
  attendee_public_name = "";
  response = response;
  previous_response = Option.map (λ r. r.response) current;
  note = note;
  created_at = tx.now;
}

-- The insertion of the next version and the notification of the event's author, which `rsvpEvent`
-- and `cancelEventRsvp` share.
unfoldable pub store_rsvp :
    EventsDb
    → TxContext
    → Rsvp
    → Option RsvpRow
    → RsvpResponse
    → Option ℕ
    → Result (RsvpOutcome × EventsDb)
unfolding insert_rsvp
store_rsvp db tx rsvp current response note = do
  db' ← insert_rsvp db tx (rsvp_row tx rsvp current response note)
  ok (
    stored response,
    insert_event_rsvp_notification db' (rsvp_notification tx rsvp current response note),
  )

abbrev same_note : Option ℕ → Option ℕ → Bool
same_note none none = true
same_note (some a) (some b) = a == b
same_note _ _ = false

abbrev pub is_same_answer : Option RsvpRow → RsvpResponse → Option ℕ → Bool
is_same_answer none response new_note = false
is_same_answer (some r) response new_note =
    same_response r.response response && same_note r.note new_note

-- What both handlers check after the event and the membership are found.
unfoldable pub assert_rsvp_allowed : TxContext → EventIdentity → Result (Unit {0})
assert_rsvp_allowed tx event = do
  guard event.is_event invalid_state
  guard tx.lock_acquired version_conflict
  guard (not event.has_started) event_rsvp_closed

unfoldable pub answer_rsvp :
    EventsDb → TxContext → Rsvp → RsvpResponse → Option ℕ → Result (RsvpOutcome × EventsDb)
answer_rsvp db tx rsvp response note = do
  assert_rsvp_allowed tx rsvp.event
  let current = read_current_event_rsvp db.event_rsvps rsvp.event.content_id rsvp.membership_id
  let stored_response =
      resolve_stored_rsvp_response response current
        (count_live_yes_rsvps db.event_rsvps rsvp.event.content_id) rsvp.event.capacity
  if is_same_answer current stored_response note
      then ok (unchanged, db)
      else store_rsvp db tx rsvp current stored_response note

abbrev pub cancel_current :
    EventsDb → TxContext → Rsvp → Option RsvpRow → Result (RsvpOutcome × EventsDb)
cancel_current db tx rsvp none = ok (unchanged, db)
cancel_current db tx rsvp (some r) =
    if is_cancelled r.response
    then ok (unchanged, db)
    else store_rsvp db tx rsvp (some r) cancelled none

unfoldable pub cancel_rsvp : EventsDb → TxContext → Rsvp → Result (RsvpOutcome × EventsDb)
cancel_rsvp db tx rsvp = do
  assert_rsvp_allowed tx rsvp.event
  cancel_current db tx rsvp
      (read_current_event_rsvp db.event_rsvps rsvp.event.content_id rsvp.membership_id)

-- The event and the actor's membership in its club; without one of them the handlers return null.
abbrev pub target :
    EventsDb → ℕ → ℕ → ℕ → List AccessibleMembership → Option EventIdentity → Option Rsvp
target db now actor_member_id event_id memberships none = none
target db now actor_member_id event_id memberships (some event) =
    Option.map
      (λ m. record {
        event = event;
        membership_id = m.membership_id;
        actor_member_id = actor_member_id;
      })
      (find (λ m. m.club_id == event.club_id) memberships)

abbrev pub find_target : EventsDb → ℕ → ℕ → ℕ → List AccessibleMembership → Option Rsvp
find_target db now actor_member_id event_id memberships =
    target db now actor_member_id event_id memberships
      (resolve_event_identity db now event_id memberships)

abbrev pub or_missing :
    EventsDb
    → Option Rsvp
    → (Rsvp → Result (RsvpOutcome × EventsDb))
    → Result (RsvpOutcome × EventsDb)
or_missing db none handler = ok (missing, db)
or_missing db (some rsvp) handler = handler rsvp

-- The limit of `rsvpEvent` on repeated attempts.
abbrev pub retry_serialization_failures : ℕ
retry_serialization_failures = 2

-- The transaction of `rsvpEvent`: an attempt with a serialization failure changes nothing and is made
-- again, up to the limit; then the error is translated. `attempt` is the one that is not refused.
unfoldable pub with_retries :
    TxContext → (attempt : Result (RsvpOutcome × EventsDb)) → Result (RsvpOutcome × EventsDb)
with_retries tx attempt =
    if leb tx.serialization_failures retry_serialization_failures
    then attempt
    else err version_conflict

unfoldable pub rsvp_event :
    EventsDb
    → TxContext
    → (actor_member_id event_id : ℕ) → RsvpResponse
    → Option ℕ
    → List AccessibleMembership
    → Result (RsvpOutcome × EventsDb)
unfolding with_retries
rsvp_event db tx actor_member_id event_id response note memberships = with_retries tx (
    or_missing db (find_target db tx.now actor_member_id event_id memberships)
      (λ rsvp. answer_rsvp db tx rsvp response note))

unfoldable pub cancel_event_rsvp :
    EventsDb
    → TxContext
    → (actor_member_id event_id : ℕ) → List AccessibleMembership
    → Result (RsvpOutcome × EventsDb)
cancel_event_rsvp db tx actor_member_id event_id memberships =
    or_missing db (find_target db tx.now actor_member_id event_id memberships)
      (λ rsvp. cancel_rsvp db tx rsvp)
