-- ===== src/Streams/Recovery.antt =====
-- The notifier is never stuck without a listener, and no waiter stands in it without one.
use clawclub_server.Common.{
  ℕ, ◌≡◌, refl, sym, ap, ◌∙◌, ◌⊎◌, inl, inr, Bool, true, false, Option, none, some, Bool-cases,
  ==_refl, Text, text_eq, codes, subst,
}
use mathlib.Core.Option.{some-injective}
use clawclub_server.Streams.Notifier.{
  NotifierState, WaitOutcome, NotifierOptions, Notifier, is_closed, finish_waiter, finish_each,
  end_sleep, reject_waiters, WakeupFields, message_fields, is_woken, wakeup_cause,
  handle_notification,
}
use clawclub_server.Streams.Notifier.NotifierState.{connecting, listening, fallback, closed}
use clawclub_server.Streams.Notifier.WaitOutcome.{
  notified, timed_out, aborted, listener_failed, notifier_closed,
}
use clawclub_server.Streams.Lifecycle.{
  schedule_reconnect, enter_fallback, handle_client_error, connect_listener, client_connected,
  connect_failed, reconnect_due, WaitInput, wait_for_update, close_notifier, create_notifier, Step,
  Run, same_client, is_set, begin_sleep, FailsAfterError, ClientsFailAfterError,
}
use clawclub_server.Streams.Lifecycle.Step.{
  client_connects, client_fails, client_errs, timer_fires, message_comes, request_waits,
  wait_times_out, sleep_times_out, sleep_aborts, signal_aborts, closes,
}
use clawclub_server.Streams.Lifecycle.Run.{here, next}
use clawclub_server.Streams.Waiting.{Requests, enter_fallback-requests}
use clawclub_server.Streams.Waking.{AtMostOnce, Run-AtMostOnce, reject_waiters-waiters}
use clawclub_server.Streams.Connection.{
  Recovers, RecoversIf, RecoversNow, Connection, end_sleep-connection, finish_waiter-connection,
  finish_each-connection, finish_waiter-nil, finish_each-nil, keeps_connection,
}

-- The notifier with a given connection.
abbrev with_connection :
    (state : NotifierState) (client promise timer : Option ℕ) → Notifier → Notifier
with_connection state client promise timer n = record n {
  state = state;
  client = client;
  connect_promise = promise;
  reconnect_timer = timer;
}

connected_at :
    (P : Type 0) (state : NotifierState) (client promise timer : Option ℕ) (n : Notifier) (c : ℕ)
    → promise ≡ some c
    → (P → (client ≡ some c) ⊎ (state ≡ closed))
    → Recovers P state client promise timer n.waiters
    → RecoversIf P (client_connected c (with_connection state client promise timer n))
unfolding client_connected
connected_at P connecting cl pr ti n c p q (c', a, b, d, w) =
    let same : c' ≡ c = some-injective _ _ (sym b ∙ p) in rw (a, same, ==_refl c) (c, refl, refl, d)
connected_at P listening cl pr ti n c p q (c', a, b, d) = cc
connected_at P fallback cl pr ti n c p q (a, b, w) =
    rw a (refl, λ sound. elim (q sound) [ inl e ↦ cc | inr e ↦ cc ], w)
connected_at P closed cl pr ti n c p q (a, b, w) = rw a (refl, b, w)

-- `enter_fallback`, of a notifier without a client that is not closed.
fallback_at :
    (options : NotifierOptions) (state : NotifierState) (promise timer : Option ℕ) (n : Notifier)
    → is_closed state ≡ false
    → let m = enter_fallback options (with_connection state none promise timer n) in
      (m.state ≡ fallback) × (m.client ≡ none) × (is_set m.reconnect_timer ≡ true)
unfolding enter_fallback schedule_reconnect
fallback_at options state promise none n is_open = rw is_open (refl, refl, refl)
fallback_at options state promise (some delay) n is_open = rw is_open (refl, refl, refl)

failed_at :
    (P : Type 0) (options : NotifierOptions) (state : NotifierState)
    (client promise timer : Option ℕ) (n : Notifier) (c : ℕ)
    → promise ≡ some c
    → Recovers P state client promise timer n.waiters
    → RecoversIf P (connect_failed options c (with_connection state client promise timer n))
unfolding connect_failed enter_fallback schedule_reconnect
failed_at P options connecting cl pr none n c p (c', a, b, d, w) =
    let same : c' ≡ c = some-injective _ _ (sym b ∙ p) in
    rw (a, same, ==_refl c) (refl, λ sound. refl, w)
failed_at P options connecting cl pr (some delay) n c p (c', a, b, d, w) = cc
failed_at P options listening cl pr ti n c p (c', a, b, d) = cc
failed_at P options fallback cl pr none n c p (a, b, w) = rw a (refl, λ sound. refl, w)
failed_at P options fallback cl pr (some delay) n c p (a, b, w) = rw a (refl, λ sound. refl, w)
failed_at P options closed cl pr ti n c p (a, b, w) = rw a (refl, b, w)

timer_at :
    (P : Type 0) (state : NotifierState) (client promise timer : Option ℕ) (n : Notifier)
    (delay : ℕ)
    → timer ≡ some delay
    → Recovers P state client promise timer n.waiters
    → RecoversIf P (reconnect_due (with_connection state client promise timer n))
unfolding reconnect_due connect_listener
timer_at P connecting cl pr ti n delay p (c, a, b, d, w) = cc
timer_at P listening cl pr ti n delay p (c, a, b, d) = cc
timer_at P fallback cl none ti n delay p (a, b, w) = (n.next_client, refl, refl, refl, w)
timer_at P fallback cl (some c) ti n delay p (a, b, w) = (a, λ sound. refl, w)
timer_at P closed cl pr ti n delay p (a, b, w) = cc

sleeps_at :
    (P : Type 0) (signal_aborted : Bool) (n : Notifier)
    → RecoversIf P n
    → RecoversIf P (begin_sleep signal_aborted n)
unfolding begin_sleep
sleeps_at P true n h = h
sleeps_at P false n h = h

waits_at :
    (P : Type 0) (state : NotifierState) (client promise timer : Option ℕ) (n : Notifier)
    (input : WaitInput)
    → Recovers P state client promise timer n.waiters
    → RecoversIf P (wait_for_update input (with_connection state client promise timer n))
unfolding wait_for_update
waits_at P connecting cl pr ti n input h = sleeps_at P input.signal_aborted _ h
waits_at P listening cl pr ti n input h = h
waits_at P fallback cl pr ti n input h = sleeps_at P input.signal_aborted _ h
waits_at P closed cl pr ti n input h = sleeps_at P input.signal_aborted _ h

rejected_fallback :
    (P : Type 0) (m : Notifier)
    → (m.state ≡ fallback) × (m.client ≡ none) × (is_set m.reconnect_timer ≡ true)
    → AtMostOnce m.waiters
    → RecoversIf P (reject_waiters listener_failed m)
unfolding reject_waiters
rejected_fallback P m (fell, no_client, timer) once =
    subst
      (λ (k : Connection). Recovers P k.0 k.1 k.2 k.3 (reject_waiters listener_failed m).waiters)
      (sym (finish_each-connection (λ w. true) listener_failed m.waiters m))
      (subst
        (λ s.
          Recovers P s m.client m.connect_promise m.reconnect_timer
            (reject_waiters listener_failed m).waiters)
        (sym fell)
        (no_client, λ sound. rw timer refl, reject_waiters-waiters listener_failed m once))

-- The client fails while the notifier uses it.
failed_client :
    (P : Type 0) (options : NotifierOptions) (state : NotifierState)
    (client promise timer : Option ℕ) (n : Notifier)
    → is_closed state ≡ false
    → AtMostOnce n.waiters
    → RecoversIf P (
        reject_waiters listener_failed
          (enter_fallback options (with_connection state none promise timer n)))
failed_client P options state client promise timer n is_open once =
    rejected_fallback P (enter_fallback options (with_connection state none promise timer n))
      (fallback_at options state promise timer n is_open)
      (subst (λ (r : Requests). AtMostOnce r.0)
        (sym (enter_fallback-requests options (with_connection state none promise timer n))) once)

errs_at :
    (P : Type 0) (options : NotifierOptions) (state : NotifierState)
    (client promise timer : Option ℕ) (n : Notifier) (c : ℕ)
    → AtMostOnce n.waiters
    → Recovers P state client promise timer n.waiters
    → RecoversIf P (handle_client_error options c (with_connection state client promise timer n))
unfolding handle_client_error
errs_at P options connecting cl pr ti n c once h = elim (Bool-cases (same_client cl c)) [
  | inl e ↦ rw e (failed_client P options connecting cl pr ti n refl once)
  | inr e ↦ rw e h
]
errs_at P options listening cl pr ti n c once h = elim (Bool-cases (same_client cl c)) [
  | inl e ↦ rw e (failed_client P options listening cl pr ti n refl once)
  | inr e ↦ rw e h
]
errs_at P options fallback cl pr ti n c once (a, b, w) = rw a (refl, b, w)
errs_at P options closed cl pr ti n c once h = h

pub closed_at :
    (P : Type 0) (n : Notifier)
    → AtMostOnce n.waiters
    → RecoversIf P (close_notifier n) × ((close_notifier n).state ≡ closed)
unfolding close_notifier reject_waiters
closed_at P n once =
    let stopped = record n { state = closed; reconnect_timer = none } in
    let same = finish_each-connection (λ w. true) notifier_closed n.waiters stopped in
    let none_left = reject_waiters-waiters notifier_closed stopped once in
    let is_shut = ap (λ (k : Connection). k.0) same in
    (rw is_shut (refl, ap (λ (k : Connection). k.3) same, none_left), is_shut)

finishes :
    (P : Type 0) (n : Notifier) (i : ℕ) (outcome : WaitOutcome)
    → RecoversIf P n
    → RecoversIf P (finish_waiter n i outcome)
finishes P n i outcome h =
    keeps_connection P n (finish_waiter n i outcome) (finish_waiter-connection n i outcome)
      (finish_waiter-nil n i outcome) h

Step-Recovers :
    (P : Type 0) {options : NotifierOptions} {json_fields : Text → Option WakeupFields}
    {n m : Notifier} (step : Step options json_fields n m)
    → (P → FailsAfterError step)
    → AtMostOnce n.waiters
    → RecoversIf P n
    → RecoversIf P m
unfolding handle_notification
Step-Recovers P {n} (client_connects c p) q once h =
    connected_at P n.state n.client n.connect_promise n.reconnect_timer n c p q h
Step-Recovers P {options} {n} (client_fails c p) q once h =
    failed_at P options n.state n.client n.connect_promise n.reconnect_timer n c p h
Step-Recovers P {options} {n} (client_errs c) q once h =
    errs_at P options n.state n.client n.connect_promise n.reconnect_timer n c once h
Step-Recovers P {n} (timer_fires delay p) q once h =
    timer_at P n.state n.client n.connect_promise n.reconnect_timer n delay p h
Step-Recovers P {json_fields} {n} (message_comes message) q once h =
    elim (Bool-cases (text_eq message.channel (codes "stream"))) [
      | inl e ↦
          let fields = message_fields json_fields message.payload in
          let cause = notified (wakeup_cause fields) in
          rw e (
            keeps_connection P n (finish_each (is_woken fields) cause n.waiters n)
              (finish_each-connection (is_woken fields) cause n.waiters n)
              (finish_each-nil (is_woken fields) cause n) h)
      | inr e ↦ rw e h
    ]
Step-Recovers P {n} (request_waits input) q once h =
    waits_at P n.state n.client n.connect_promise n.reconnect_timer n input h
Step-Recovers P {n} (wait_times_out i) q once h = finishes P n i timed_out h
Step-Recovers P {n} (sleep_times_out i) q once h =
    let (same, waiters) = end_sleep-connection n i timed_out in
    keeps_connection P n (end_sleep n i timed_out) same (λ e. waiters ∙ e) h
Step-Recovers P {n} (sleep_aborts i) q once h =
    let (same, waiters) = end_sleep-connection n i aborted in
    keeps_connection P n (end_sleep n i aborted) same (λ e. waiters ∙ e) h
Step-Recovers P {n} (signal_aborts i) q once h = finishes P n i aborted h
Step-Recovers P {n} closes q once h = (closed_at P n once).0

create_notifier-Recovers : (P : Type 0) → RecoversIf P create_notifier
unfolding create_notifier connect_listener
create_notifier-Recovers P = (0, refl, refl, refl, refl)

module _ {options : NotifierOptions} {json_fields : Text → Option WakeupFields} where
  pub Run-RecoversIf :
      (P : Type 0) {n : Notifier} (run : Run options json_fields create_notifier n)
      → (P → ClientsFailAfterError run)
      → RecoversIf P n
  Run-RecoversIf P here q = create_notifier-Recovers P
  Run-RecoversIf P (next run step) q =
      Step-Recovers P step (λ p. (q p).1) (Run-AtMostOnce run) (Run-RecoversIf P run (λ p. (q p).0))

  -- If no client that has reported an error comes to listen after it, then whatever happens to the
  -- notifier, one that is neither closed nor listening has a connection attempt under way or a timer
  -- for the next attempt, one that listens has its client, and there are waiters only while it
  -- listens; a closed one has no client, no timer and no waiters. Sleeping requests are no waiters.
  pub Run-Recovers :
      {n : Notifier} (run : Run options json_fields create_notifier n)
      → ClientsFailAfterError run
      → RecoversNow n
  Run-Recovers run fail = Run-RecoversIf (Unit {0}) run (λ u. fail)
