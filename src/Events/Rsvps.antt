-- ===== src/Events/Rsvps.antt =====
-- src/clubs/events.ts: the events, the RSVP table, its view, and the answer that is stored.
use clawclub_server.Common.{
  ℕ, ◌+◌, ◌-◌, ◌≤◌, ◌≡◌, ◌≢◌, inl, inr, Bool, true, false, ◌&&◌, Option, none, some, List, [], ◌∷◌,
  arith, leb, ◌==◌, if◌then◌else◌, count_by, find, Bool-cases, ==_iff,
}

pub data RsvpResponse : Type 0 where
  answer_yes answer_maybe answer_waitlist answer_no cancelled : RsvpResponse

abbrev pub is_yes : RsvpResponse → Bool
is_yes answer_yes = true
is_yes _ = false

abbrev pub is_cancelled : RsvpResponse → Bool
is_cancelled cancelled = true
is_cancelled _ = false

abbrev pub same_response : RsvpResponse → RsvpResponse → Bool
same_response answer_yes answer_yes = true
same_response answer_maybe answer_maybe = true
same_response answer_waitlist answer_waitlist = true
same_response answer_no answer_no = true
same_response cancelled cancelled = true
same_response _ _ = false

-- A row of `event_rsvps`. A note is an opaque number, compared for equality only.
pub record RsvpRow : Type 0 where
  pub id : ℕ
  pub event_content_id : ℕ
  pub membership_id : ℕ
  pub response : RsvpResponse
  pub note : Option ℕ
  pub version_no : ℕ
  pub supersedes_rsvp_id : Option ℕ
  pub created_by_member_id : ℕ
  pub created_at : ℕ

abbrev pub is_key : ℕ → ℕ → RsvpRow → Bool
is_key event_id membership_id r = r.event_content_id == event_id && r.membership_id == membership_id

-- distinct on (event_content_id, membership_id) … order by version_no desc
unfoldable pub insert_latest : RsvpRow → List RsvpRow → List RsvpRow
insert_latest r [] = r ∷ []
insert_latest r (s ∷ view) =
    if is_key r.event_content_id r.membership_id s
    then (if leb s.version_no r.version_no then r else s) ∷ view
    else s ∷ insert_latest r view

unfoldable pub current_event_rsvps : List RsvpRow → List RsvpRow
unfolding insert_latest
current_event_rsvps [] = []
current_event_rsvps (r ∷ rows) = insert_latest r (current_event_rsvps rows)

unfoldable pub read_current_event_rsvp : List RsvpRow → ℕ → ℕ → Option RsvpRow
read_current_event_rsvp rows event_id membership_id =
    find (is_key event_id membership_id) (current_event_rsvps rows)

abbrev pub is_yes_for : ℕ → RsvpRow → Bool
is_yes_for event_id r = r.event_content_id == event_id && is_yes r.response

unfoldable pub count_live_yes_rsvps : List RsvpRow → ℕ → ℕ
count_live_yes_rsvps rows event_id = count_by (is_yes_for event_id) (current_event_rsvps rows)

abbrev pub occupied_by : Option RsvpRow → ℕ
occupied_by none = 0
occupied_by (some r) = if is_yes r.response then 1 else 0

abbrev demote : ℕ → ℕ → RsvpResponse
demote occupied_seats_by_others capacity =
    if leb capacity occupied_seats_by_others then answer_waitlist else answer_yes

-- `liveYesCount - (currentResponse === 'yes' ? 1 : 0)`: the count is at least that.
unfoldable pub resolve_stored_rsvp_response :
    RsvpResponse → Option RsvpRow → ℕ → Option ℕ → RsvpResponse
resolve_stored_rsvp_response answer_yes current live_yes_count (some capacity) =
    demote (live_yes_count - occupied_by current) capacity
resolve_stored_rsvp_response requested current live_yes_count capacity = requested

-- Replacing the last version of a key exchanges its seat: what the old answer held is freed, and what
-- the new one takes is counted.
pub count-insert_latest :
    (event_id : ℕ) (r : RsvpRow) (view : List RsvpRow)
    → ((s : RsvpRow)
        → find (is_key r.event_content_id r.membership_id) view ≡ some s
        → s.version_no ≤ r.version_no)
    → r.event_content_id ≡ event_id
    → count_by (is_yes_for event_id) (insert_latest r view)
        + occupied_by (find (is_key r.event_content_id r.membership_id) view)
      ≡ count_by (is_yes_for event_id) view + (if is_yes r.response then 1 else 0)
unfolding insert_latest
count-insert_latest event_id r [] h e = ground (arith, ==_iff r.event_content_id event_id)
count-insert_latest event_id r (s ∷ view) h e =
    elim (Bool-cases (is_key r.event_content_id r.membership_id s)) [
      | inl same ↦ ground (
        arith,
        h s,
        ==_iff r.event_content_id event_id,
        ==_iff s.event_content_id event_id,
        ==_iff s.event_content_id r.event_content_id,
      )
      | inr other ↦ rw other (omega (arith, count-insert_latest event_id r view (rw other at h) e))
    ]

-- An answer to one event changes the count of no other.
pub count-insert_latest_ne :
    (event_id : ℕ) (r : RsvpRow) (view : List RsvpRow)
    → r.event_content_id ≢ event_id
    → count_by (is_yes_for event_id) (insert_latest r view) ≡ count_by (is_yes_for event_id) view
unfolding insert_latest
count-insert_latest_ne event_id r [] h = ground (arith, ==_iff r.event_content_id event_id)
count-insert_latest_ne event_id r (s ∷ view) h = ground (
  arith,
  ==_iff r.event_content_id event_id,
  ==_iff s.event_content_id event_id,
  ==_iff s.event_content_id r.event_content_id,
  count-insert_latest_ne event_id r view h,
)

-- Who holds a seat is counted.
pub occupied-le-count :
    (event_id membership_id : ℕ) (rows : List RsvpRow)
    → occupied_by (read_current_event_rsvp rows event_id membership_id)
      ≤ count_live_yes_rsvps rows event_id
unfolding read_current_event_rsvp count_live_yes_rsvps
occupied-le-count event_id membership_id rows = below (current_event_rsvps rows)
  where
    below :
        (view : List RsvpRow)
        → occupied_by (find (is_key event_id membership_id) view)
          ≤ count_by (is_yes_for event_id) view
    below [] = omega arith
    below (s ∷ view) = ground (arith, below view)
