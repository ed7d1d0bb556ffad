-- ===== src/Streams/Notifier.antt =====
-- src/member-updates-notifier.ts: the notifier that listens on the channel `stream` and wakes the
-- requests that wait for an update, as a machine that the callbacks of the Postgres client, the
-- timers and the requests drive. A client is the number of its connection attempt, and the promise of
-- `connectListener` is the attempt that has not settled. JSON is a parameter.
use clawclub_server.Common.{
  max, ℕ, Bool, true, false, not, ◌&&◌, ◌||◌, Option, none, some, List, [], ◌∷◌, ◌++◌, ◌==◌,
  if◌then◌else◌, get_or, any, filter, Text, text_eq, codes,
}

pub data NotifierState : Type 0 where
  connecting : NotifierState
  listening : NotifierState
  fallback : NotifierState
  closed : NotifierState

pub record StreamWakeupCause : Type 0 where
  pub kind : Text
  pub club_id : Option Text
  pub recipient_member_id : Option Text

-- How a request or the promise of its waiter is settled; the code tells its errors apart by their
-- messages.
pub data WaitOutcome : Type 0 where
  notified : Option StreamWakeupCause → WaitOutcome
  timed_out : WaitOutcome
  aborted : WaitOutcome
  listener_failed : WaitOutcome
  notifier_closed : WaitOutcome

-- A waiter is an object: `id` is the identity of its request, and `signal_aborted` tells that the signal
-- of the request was aborted before it began to wait. `afterStreamSeq` is stored and not read.
pub record Waiter : Type 0 where
  pub id : ℕ
  pub recipient_member_id : Text
  pub club_ids : List Text
  pub after_stream_seq : Option ℕ
  pub signal_aborted : Bool

pub record NotifierOptions : Type 0 where
  pub reconnect_base_delay_ms : ℕ
  pub reconnect_max_delay_ms : ℕ

-- `sleepers` are the requests in `sleep`, `settled` holds the requests that were settled, the last
-- first, and `next_id` and `next_client` are the identities that are not in use.
pub record Notifier : Type 0 where
  pub state : NotifierState
  pub client : Option ℕ
  pub connect_promise : Option ℕ
  pub reconnect_timer : Option ℕ
  pub reconnect_attempt : ℕ
  pub fallback_logged : Bool
  pub waiters : List Waiter
  pub sleepers : List ℕ
  pub settled : List (ℕ × WaitOutcome)
  pub next_id : ℕ
  pub next_client : ℕ

-- Math.max(1, options.reconnectBaseDelayMs ?? 250) and the maximum that is no smaller.
unfoldable pub notifier_options : (base_ms max_ms : Option ℕ) → NotifierOptions
notifier_options base_ms max_ms =
    let base = max 1 (get_or base_ms 250) in
    record {
      reconnect_base_delay_ms = base;
      reconnect_max_delay_ms = max base (get_or max_ms 5000);
    }

abbrev pub is_closed : NotifierState → Bool
is_closed closed = true
is_closed _ = false

abbrev pub is_listening : NotifierState → Bool
is_listening listening = true
is_listening _ = false

abbrev pub has_waiter : (id : ℕ) (waiters : List Waiter) → Bool
has_waiter id waiters = any (λ w. w.id == id) waiters

abbrev pub has_aborted : (id : ℕ) (waiters : List Waiter) → Bool
has_aborted id waiters = any (λ w. w.id == id && w.signal_aborted) waiters

-- The `catch` of `waitForUpdate`: a request whose waiter was rejected sleeps, unless its signal is
-- aborted.
unfoldable pub falls_asleep : (outcome : WaitOutcome) (signal_aborted : Bool) → Bool
falls_asleep (notified cause) signal_aborted = false
falls_asleep timed_out signal_aborted = false
falls_asleep aborted signal_aborted = false
falls_asleep listener_failed signal_aborted = not signal_aborted
falls_asleep notifier_closed signal_aborted = not signal_aborted

-- How a request goes on whose waiter was settled.
unfoldable pub go_on : (asleep : Bool) (n : Notifier) (id : ℕ) (outcome : WaitOutcome) → Notifier
go_on true n id outcome = record n { sleepers = n.sleepers ++ id ∷ [] }
go_on false n id outcome = record n { settled = (id, outcome) ∷ n.settled }

-- finishWaiter: only a waiter that still waits is settled.
unfoldable pub finish_waiter : (n : Notifier) (id : ℕ) (outcome : WaitOutcome) → Notifier
unfolding falls_asleep go_on
finish_waiter n id outcome =
    if has_waiter id n.waiters
    then go_on (falls_asleep outcome (has_aborted id n.waiters))
        (record n { waiters = filter (λ w. not (w.id == id)) n.waiters }) id outcome
    else n

-- The timer or the signal of a request that sleeps.
unfoldable pub end_sleep : (n : Notifier) (id : ℕ) (outcome : WaitOutcome) → Notifier
end_sleep n id outcome =
    if any (λ i. i == id) n.sleepers
    then (record n {
      sleepers = filter (λ i. not (i == id)) n.sleepers;
      settled = (id, outcome) ∷ n.settled;
    })
    else n

-- The loop over `[...waiters]`: those that `wakes` picks are finished.
unfoldable pub finish_each :
    (wakes : Waiter → Bool) (outcome : WaitOutcome) (copy : List Waiter) (n : Notifier) → Notifier
unfolding finish_waiter
finish_each wakes outcome [] n = n
finish_each wakes outcome (w ∷ copy) n =
    finish_each wakes outcome copy (if wakes w then finish_waiter n w.id outcome else n)

-- rejectWaiters
unfoldable pub reject_waiters : (outcome : WaitOutcome) (n : Notifier) → Notifier
unfolding finish_each
reject_waiters outcome n = finish_each (λ w. true) outcome n.waiters n

-- The text fields of a payload.
pub record WakeupFields : Type 0 where
  pub kind : Option Text
  pub club_id : Option Text
  pub recipient_member_id : Option Text

abbrev pub no_fields : WakeupFields
no_fields = record { kind = none; club_id = none; recipient_member_id = none }

pub record ChannelMessage : Type 0 where
  pub channel : Text
  pub payload : Option Text

abbrev pub is_none {ℓ} : {A : Type ℓ} → Option A → Bool
is_none none = true
is_none (some a) = false

unfoldable pub wakeup_cause : WakeupFields → Option StreamWakeupCause
wakeup_cause fields =
    if is_none fields.kind && (is_none fields.club_id && is_none fields.recipient_member_id)
    then none
    else some (record {
      kind = get_or fields.kind [];
      club_id = fields.club_id;
      recipient_member_id = fields.recipient_member_id;
    })

abbrev pub eq_some : (a : Option Text) (b : Text) → Bool
eq_some none b = false
eq_some (some a) b = text_eq b a

abbrev pub includes_some : (texts : List Text) (a : Option Text) → Bool
includes_some texts none = false
includes_some texts (some a) = any (λ t. text_eq t a) texts

-- The three tests in the loop of `handleNotification`.
unfoldable pub is_woken : (fields : WakeupFields) (w : Waiter) → Bool
is_woken fields w =
    eq_some fields.recipient_member_id w.recipient_member_id
    || (includes_some w.club_ids fields.club_id
        || (is_none fields.club_id && is_none fields.recipient_member_id))

-- `json_fields` gives the text fields of a JSON text, `none` where reading them throws.
unfoldable pub message_fields :
    (json_fields : Text → Option WakeupFields) (payload : Option Text) → WakeupFields
message_fields json_fields none = no_fields
message_fields json_fields (some []) = no_fields
message_fields json_fields (some (c ∷ text)) = get_or (json_fields (c ∷ text)) no_fields

unfoldable pub handle_notification :
    (json_fields : Text → Option WakeupFields) (message : ChannelMessage) (n : Notifier) → Notifier
unfolding message_fields wakeup_cause is_woken finish_each
handle_notification json_fields message n =
    if not (text_eq message.channel (codes "stream"))
    then n
    else let fields = message_fields json_fields message.payload in
      finish_each (is_woken fields) (notified (wakeup_cause fields)) n.waiters n
