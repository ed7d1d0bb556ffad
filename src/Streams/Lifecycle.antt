-- ===== src/Streams/Lifecycle.antt =====
-- src/member-updates-notifier.ts: the connection of the notifier, the requests that wait, and closing.
use clawclub_server.Common.{
  min, ◌^◌, ℕ, ◌+◌, ◌*◌, ◌≡◌, ◌⊎◌, Bool, true, false, not, ◌||◌, Option, none, some, List, [], ◌∷◌,
  ◌++◌, ◌==◌, if◌then◌else◌, Text,
}
use clawclub_server.Streams.Notifier.{
  NotifierOptions, Notifier, is_closed, is_listening, finish_waiter, end_sleep, reject_waiters,
  WakeupFields, ChannelMessage, handle_notification,
}
use clawclub_server.Streams.Notifier.NotifierState.{connecting, listening, fallback, closed}
use clawclub_server.Streams.Notifier.WaitOutcome.{
  timed_out, aborted, listener_failed, notifier_closed,
}

abbrev pub same_client : (a : Option ℕ) (c : ℕ) → Bool
same_client none c = false
same_client (some a) c = a == c

abbrev pub is_set : Option ℕ → Bool
is_set none = false
is_set (some a) = true

-- Math.min(reconnectMaxDelayMs, reconnectBaseDelayMs * 2 ** Math.min(reconnectAttempt, 8))
unfoldable pub reconnect_delay : (options : NotifierOptions) (attempt : ℕ) → ℕ
reconnect_delay options attempt =
    min options.reconnect_max_delay_ms (options.reconnect_base_delay_ms * 2 ^ min attempt 8)

unfoldable pub schedule_reconnect : (options : NotifierOptions) (n : Notifier) → Notifier
unfolding reconnect_delay
schedule_reconnect options n =
    if is_closed n.state || is_set n.reconnect_timer then n else (record n {
      reconnect_timer = some (reconnect_delay options n.reconnect_attempt);
      reconnect_attempt = n.reconnect_attempt + 1;
    })

-- With the flag that `logFallback` sets.
unfoldable pub enter_fallback : (options : NotifierOptions) (n : Notifier) → Notifier
unfolding schedule_reconnect
enter_fallback options n =
    if is_closed n.state
    then n
    else schedule_reconnect options (record n { state = fallback; fallback_logged = true })

unfoldable pub handle_client_error : (options : NotifierOptions) (c : ℕ) (n : Notifier) → Notifier
unfolding enter_fallback reject_waiters
handle_client_error options c n =
    if is_closed n.state || not (same_client n.client c)
    then n
    else reject_waiters listener_failed (enter_fallback options (record n { client = none }))

-- connectListener, up to its first wait.
unfoldable pub connect_listener : (n : Notifier) → Notifier
connect_listener n = if is_closed n.state || is_set n.connect_promise then n else (record n {
  state = connecting;
  client = some n.next_client;
  connect_promise = some n.next_client;
  next_client = n.next_client + 1;
})

-- The client of `connectListener` has connected and listens. `finally` clears the promise.
unfoldable pub client_connected : (c : ℕ) (n : Notifier) → Notifier
client_connected c n =
    if not (same_client n.client c) then (record n { connect_promise = none }) else (record n {
      state = listening;
      reconnect_attempt = 0;
      fallback_logged = false;
      connect_promise = none;
    })

-- Its `connect` or its `query` has failed.
unfoldable pub connect_failed : (options : NotifierOptions) (c : ℕ) (n : Notifier) → Notifier
unfolding enter_fallback
connect_failed options c n =
    let left = (if same_client n.client c then (record n { client = none }) else n) in
    record (enter_fallback options left) { connect_promise = none }

-- The timer that `scheduleReconnect` set.
unfoldable pub reconnect_due : (n : Notifier) → Notifier
unfolding connect_listener
reconnect_due n = connect_listener (record n { reconnect_timer = none })

pub record WaitInput : Type 0 where
  pub recipient_member_id : Text
  pub club_ids : List Text
  pub after_stream_seq : Option ℕ
  pub signal_aborted : Bool

-- sleep: with an aborted signal it throws at once.
unfoldable pub begin_sleep : (signal_aborted : Bool) (n : Notifier) → Notifier
begin_sleep true n = record n {
  settled = (n.next_id, aborted) ∷ n.settled;
  next_id = n.next_id + 1;
}
begin_sleep false n = record n { sleepers = n.sleepers ++ n.next_id ∷ []; next_id = n.next_id + 1 }

-- waitForUpdate, once the promise of `connectListener` has settled: a waiter, or, if the listener is
-- not there, `sleep`. `finish_waiter` has what follows a waiter.
unfoldable pub wait_for_update : (input : WaitInput) (n : Notifier) → Notifier
unfolding begin_sleep
wait_for_update input n =
    if not (is_listening n.state) then begin_sleep input.signal_aborted n else (record n {
      waiters =
          n.waiters
          ++ record {
            id = n.next_id;
            recipient_member_id = input.recipient_member_id;
            club_ids = input.club_ids;
            after_stream_seq = input.after_stream_seq;
            signal_aborted = input.signal_aborted;
          }
            ∷ [];
      next_id = n.next_id + 1;
    })

unfoldable pub close_notifier : (n : Notifier) → Notifier
unfolding reject_waiters
close_notifier n =
    record (reject_waiters notifier_closed (record n { state = closed; reconnect_timer = none })) {
      client = none;
    }

-- createPostgresMemberUpdateNotifier
unfoldable pub create_notifier : Notifier
unfolding connect_listener
create_notifier = connect_listener (record {
  state = connecting;
  client = none;
  connect_promise = none;
  reconnect_timer = none;
  reconnect_attempt = 0;
  fallback_logged = false;
  waiters = [];
  sleepers = [];
  settled = [];
  next_id = 0;
  next_client = 0;
})

-- What can happen next.
pub data Step (options : NotifierOptions) (json_fields : Text → Option WakeupFields)
    : Notifier → Notifier → Type 0 where
  client_connects :
      {n : Notifier} (c : ℕ)
      → n.connect_promise ≡ some c
      → Step options json_fields n (client_connected c n)
  client_fails :
      {n : Notifier} (c : ℕ)
      → n.connect_promise ≡ some c
      → Step options json_fields n (connect_failed options c n)
  client_errs :
      {n : Notifier} (c : ℕ) → Step options json_fields n (handle_client_error options c n)
  timer_fires :
      {n : Notifier} (delay : ℕ)
      → n.reconnect_timer ≡ some delay
      → Step options json_fields n (reconnect_due n)
  message_comes :
      {n : Notifier} (message : ChannelMessage)
      → Step options json_fields n (handle_notification json_fields message n)
  request_waits :
      {n : Notifier} (input : WaitInput) → Step options json_fields n (wait_for_update input n)
  wait_times_out :
      {n : Notifier} (id : ℕ) → Step options json_fields n (finish_waiter n id timed_out)
  sleep_times_out : {n : Notifier} (id : ℕ) → Step options json_fields n (end_sleep n id timed_out)
  sleep_aborts : {n : Notifier} (id : ℕ) → Step options json_fields n (end_sleep n id aborted)
  signal_aborts : {n : Notifier} (id : ℕ) → Step options json_fields n (finish_waiter n id aborted)
  closes : {n : Notifier} → Step options json_fields n (close_notifier n)

-- A run of any length.
pub data Run (options : NotifierOptions) (json_fields : Text → Option WakeupFields)
    (start : Notifier) : Notifier → Type 0 where
  here : Run options json_fields start start
  next :
      {n m : Notifier}
      → Run options json_fields start n
      → Step options json_fields n m
      → Run options json_fields start m

-- A client that has reported an error, and so is no longer the notifier's client, does not come to
-- listen after it: its `connect` or its `query` fails.
abbrev pub FailsAfterError :
    {options : NotifierOptions} {json_fields : Text → Option WakeupFields} {n m : Notifier}
    → Step options json_fields n m
    → Type 0
FailsAfterError {n} (client_connects c p) = (n.client ≡ some c) ⊎ (n.state ≡ closed)
FailsAfterError (client_fails c p) = Unit {0}
FailsAfterError (client_errs c) = Unit {0}
FailsAfterError (timer_fires delay p) = Unit {0}
FailsAfterError (message_comes message) = Unit {0}
FailsAfterError (request_waits input) = Unit {0}
FailsAfterError (wait_times_out id) = Unit {0}
FailsAfterError (sleep_times_out id) = Unit {0}
FailsAfterError (sleep_aborts id) = Unit {0}
FailsAfterError (signal_aborts id) = Unit {0}
FailsAfterError closes = Unit {0}

abbrev pub ClientsFailAfterError :
    {options : NotifierOptions} {json_fields : Text → Option WakeupFields} {start n : Notifier}
    → Run options json_fields start n
    → Type 0
ClientsFailAfterError here = Unit {0}
ClientsFailAfterError (next run step) = ClientsFailAfterError run × FailsAfterError step
