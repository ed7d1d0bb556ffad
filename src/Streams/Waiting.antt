-- ===== src/Streams/Waiting.antt =====
-- Each request waits, sleeps or was settled, and is never forgotten.
use clawclub_server.Common.{
  ℕ, ◌+◌, ◌<◌, ◌≡◌, refl, sym, ◌∙◌, inl, inr, Bool, true, false, not, ◌||◌, Option, none, List, [],
  ◌∷◌, arith, ltb, ◌==◌, if◌then◌else◌, any, count_by, filter, Bool-cases, count_by-append, Text,
  text_eq, codes, subst,
}
use clawclub_server.Streams.Notifier.{
  WaitOutcome, Waiter, NotifierOptions, Notifier, is_closed, is_listening, has_waiter, has_aborted,
  falls_asleep, go_on, end_sleep, finish_waiter, finish_each, reject_waiters, WakeupFields,
  ChannelMessage, handle_notification, message_fields, is_woken, wakeup_cause,
}
use clawclub_server.Streams.Notifier.NotifierState.{fallback, closed}
use clawclub_server.Streams.Notifier.WaitOutcome.{
  notified, timed_out, aborted, listener_failed, notifier_closed,
}
use clawclub_server.Streams.Lifecycle.{
  schedule_reconnect, enter_fallback, handle_client_error, connect_listener, client_connected,
  connect_failed, reconnect_due, WaitInput, begin_sleep, wait_for_update, close_notifier,
  create_notifier, Step, Run, same_client, is_set,
}
use clawclub_server.Streams.Lifecycle.Step.{
  client_connects, client_fails, client_errs, timer_fires, message_comes, request_waits,
  wait_times_out, sleep_times_out, sleep_aborts, signal_aborts, closes,
}
use clawclub_server.Streams.Lifecycle.Run.{here, next}

-- What of the notifier is about the requests.
abbrev pub Requests : Type 0
Requests = List Waiter × List ℕ × List (ℕ × WaitOutcome) × ℕ

abbrev requests : Notifier → Requests
requests n = (n.waiters, n.sleepers, n.settled, n.next_id)

-- How often a request waits, sleeps or is settled.
abbrev pub occurs : (id : ℕ) (n : Notifier) → ℕ
occurs id n =
    count_by (λ w. w.id == id) n.waiters
    + count_by (λ i. i == id) n.sleepers
    + count_by (λ s. s.0 == id) n.settled

occurs_in : (id : ℕ) → Requests → ℕ
occurs_in id (waiters, sleepers, settled, next_id) =
    count_by (λ w. w.id == id) waiters
    + count_by (λ i. i == id) sleepers
    + count_by (λ s. s.0 == id) settled

-- Each request that has begun to wait stands once in the waiters, in the sleepers or in what was
-- settled.
abbrev Once : Requests → Type 0
Once r = (id : ℕ) → occurs_in id r ≡ (if ltb id (r.3) then 1 else 0)

count-filter :
    (i j : ℕ) (ws : List Waiter)
    → count_by (λ w. w.id == i) (filter (λ w. not (w.id == j)) ws)
      ≡ (if i == j then 0 else count_by (λ w. w.id == i) ws)
count-filter i j [] = ground arith
count-filter i j (w ∷ ws) = ground (arith, count-filter i j ws)

has_waiter-count :
    (i : ℕ) (ws : List Waiter) → has_waiter i ws ≡ true → 0 < count_by (λ w. w.id == i) ws
has_waiter-count i [] h = cc
has_waiter-count i (w ∷ ws) h = ground (arith, has_waiter-count i ws)

pub count-filter_sleepers :
    (i j : ℕ) (is : List ℕ)
    → count_by (λ k. k == i) (filter (λ k. not (k == j)) is)
      ≡ (if i == j then 0 else count_by (λ k. k == i) is)
count-filter_sleepers i j [] = ground arith
count-filter_sleepers i j (k ∷ is) = ground (arith, count-filter_sleepers i j is)

sleeps-count : (i : ℕ) (is : List ℕ) → any (λ k. k == i) is ≡ true → 0 < count_by (λ k. k == i) is
sleeps-count i [] h = cc
sleeps-count i (k ∷ is) h = ground (arith, sleeps-count i is)

finish_waiter-Once :
    (n : Notifier) (i : ℕ) (outcome : WaitOutcome)
    → Once (requests n)
    → Once (requests (finish_waiter n i outcome))
unfolding finish_waiter go_on occurs_in
finish_waiter-Once n i outcome h id = elim (Bool-cases (has_waiter i n.waiters)) [
  | inr out ↦ rw out (h id)
  | inl there ↦ elim (Bool-cases (falls_asleep outcome (has_aborted i n.waiters))) [
    | inl asleep ↦
        rw (there, asleep, count_by-append)
          (ground
            (arith, count-filter id i n.waiters, has_waiter-count i n.waiters there, h id, h i))
    | inr awake ↦
        rw (there, awake)
          (ground
            (arith, count-filter id i n.waiters, has_waiter-count i n.waiters there, h id, h i))
  ]
]

end_sleep-Once :
    (n : Notifier) (i : ℕ) (outcome : WaitOutcome)
    → Once (requests n)
    → Once (requests (end_sleep n i outcome))
unfolding end_sleep occurs_in
end_sleep-Once n i outcome h id = elim (Bool-cases (any (λ k. k == i) n.sleepers)) [
  | inr out ↦ rw out (h id)
  | inl there ↦ rw there (
      ground
        (arith, count-filter_sleepers id i n.sleepers, sleeps-count i n.sleepers there, h id, h i))
]

finish_if-Once :
    (woken : Bool) (n : Notifier) (i : ℕ) (outcome : WaitOutcome)
    → Once (requests n)
    → Once (requests (if woken then finish_waiter n i outcome else n))
finish_if-Once true n i outcome h = finish_waiter-Once n i outcome h
finish_if-Once false n i outcome h = h

finish_each-Once :
    (wakes : Waiter → Bool) (outcome : WaitOutcome) (copy : List Waiter) (n : Notifier)
    → Once (requests n)
    → Once (requests (finish_each wakes outcome copy n))
unfolding finish_each
finish_each-Once wakes outcome [] n h = h
finish_each-Once wakes outcome (w ∷ copy) n h =
    finish_each-Once wakes outcome copy _ (finish_if-Once (wakes w) n w.id outcome h)

-- The connection keeps the requests.
schedule_reconnect-requests :
    (options : NotifierOptions) (n : Notifier)
    → requests (schedule_reconnect options n) ≡ requests n
unfolding schedule_reconnect
schedule_reconnect-requests options n =
    elim (Bool-cases (is_closed n.state || is_set n.reconnect_timer)) [
      | inl e ↦ rw e refl
      | inr e ↦ rw e refl
    ]

pub enter_fallback-requests :
    (options : NotifierOptions) (n : Notifier) → requests (enter_fallback options n) ≡ requests n
unfolding enter_fallback
enter_fallback-requests options n = elim (Bool-cases (is_closed n.state)) [
  | inl e ↦ rw e refl
  | inr e ↦
      rw e (
        schedule_reconnect-requests options (record n { state = fallback; fallback_logged = true }))
]

connect_listener-requests : (n : Notifier) → requests (connect_listener n) ≡ requests n
unfolding connect_listener
connect_listener-requests n = elim (Bool-cases (is_closed n.state || is_set n.connect_promise)) [
  | inl e ↦ rw e refl
  | inr e ↦ rw e refl
]

client_connected-requests : (c : ℕ) (n : Notifier) → requests (client_connected c n) ≡ requests n
unfolding client_connected
client_connected-requests c n = elim (Bool-cases (same_client n.client c)) [
  | inl e ↦ rw e refl
  | inr e ↦ rw e refl
]

left_requests :
    (left : Bool) (n : Notifier)
    → requests (if left then (record n { client = none }) else n) ≡ requests n
left_requests true n = refl
left_requests false n = refl

connect_failed-requests :
    (options : NotifierOptions) (c : ℕ) (n : Notifier)
    → requests (connect_failed options c n) ≡ requests n
unfolding connect_failed
connect_failed-requests options c n =
    enter_fallback-requests options
      (if same_client n.client c then (record n { client = none }) else n)
    ∙ left_requests (same_client n.client c) n

handle_client_error-Once :
    (options : NotifierOptions) (c : ℕ) (n : Notifier)
    → Once (requests n)
    → Once (requests (handle_client_error options c n))
unfolding handle_client_error reject_waiters
handle_client_error-Once options c n h =
    elim (Bool-cases (is_closed n.state || not (same_client n.client c))) [
      | inl e ↦ rw e h
      | inr e ↦ rw e (
          let fallen = enter_fallback options (record n { client = none }) in
          finish_each-Once (λ w. true) listener_failed fallen.waiters fallen
            (subst Once (sym (enter_fallback-requests options (record n { client = none }))) h))
    ]

handle_notification-Once :
    (json_fields : Text → Option WakeupFields) (message : ChannelMessage) (n : Notifier)
    → Once (requests n)
    → Once (requests (handle_notification json_fields message n))
unfolding handle_notification
handle_notification-Once json_fields message n h =
    elim (Bool-cases (text_eq message.channel (codes "stream"))) [
      | inl e ↦
          let fields = message_fields json_fields message.payload in
          rw e (finish_each-Once (is_woken fields) (notified (wakeup_cause fields)) n.waiters n h)
      | inr e ↦ rw e h
    ]

wait_for_update-Once :
    (input : WaitInput) (n : Notifier)
    → Once (requests n)
    → Once (requests (wait_for_update input n))
unfolding wait_for_update begin_sleep occurs_in
wait_for_update-Once input n h id = elim (Bool-cases (is_listening n.state)) [
  | inl e ↦ rw (e, count_by-append) (ground (arith, h id))
  | inr e ↦ elim (Bool-cases input.signal_aborted) [
    | inl gone ↦ rw (e, gone) (ground (arith, h id))
    | inr waits ↦ rw (e, waits, count_by-append) (ground (arith, h id))
  ]
]

Step-Once :
    {options : NotifierOptions} {json_fields : Text → Option WakeupFields} {n m : Notifier}
    → Step options json_fields n m
    → Once (requests n)
    → Once (requests m)
unfolding reconnect_due close_notifier reject_waiters
Step-Once {n} (client_connects c p) h = subst Once (sym (client_connected-requests c n)) h
Step-Once {options} {n} (client_fails c p) h =
    subst Once (sym (connect_failed-requests options c n)) h
Step-Once {options} {n} (client_errs c) h = handle_client_error-Once options c n h
Step-Once {n} (timer_fires delay p) h =
    subst Once (sym (connect_listener-requests (record n { reconnect_timer = none }))) h
Step-Once {json_fields} {n} (message_comes message) h =
    handle_notification-Once json_fields message n h
Step-Once {n} (request_waits input) h = wait_for_update-Once input n h
Step-Once {n} (wait_times_out i) h = finish_waiter-Once n i timed_out h
Step-Once {n} (sleep_times_out i) h = end_sleep-Once n i timed_out h
Step-Once {n} (sleep_aborts i) h = end_sleep-Once n i aborted h
Step-Once {n} (signal_aborts i) h = finish_waiter-Once n i aborted h
Step-Once {n} closes h =
    finish_each-Once (λ w. true) notifier_closed n.waiters
      (record n { state = closed; reconnect_timer = none }) h

create_notifier-Once : Once (requests create_notifier)
unfolding create_notifier occurs_in connect_listener
create_notifier-Once id = ground arith

Run-Once :
    {options : NotifierOptions} {json_fields : Text → Option WakeupFields} {n : Notifier}
    → Run options json_fields create_notifier n
    → Once (requests n)
Run-Once here = create_notifier-Once
Run-Once (next run step) = Step-Once step (Run-Once run)

-- Whatever happens to the notifier, each request of `waitForUpdate` that is past the wait for a pending
-- connection attempt is in exactly one place:
-- among the waiters, asleep (without a listener, or because its waiter was rejected), or settled, and
-- then once; no other request is in any of them.
pub Run-occurs :
    {options : NotifierOptions} {json_fields : Text → Option WakeupFields} {n : Notifier}
    → Run options json_fields create_notifier n
    → (id : ℕ) → occurs id n ≡ (if ltb id n.next_id then 1 else 0)
unfolding occurs_in
Run-occurs run id = Run-Once run id
