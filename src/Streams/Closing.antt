-- ===== src/Streams/Closing.antt =====
-- Closing the notifier is final.
use clawclub_server.Common.{
  ℕ, ◌<◌, ◌≡◌, refl, sym, ap, ◌∙◌, inl, inr, Bool, true, false, Option, none, List, [], ◌∷◌, any,
  ==_iff, arith, ltb, ◌==◌, if◌then◌else◌, count_by, Bool-cases, lt→ltb, Text, text_eq, codes,
  subst,
}
use clawclub_server.Streams.Notifier.{
  Waiter, NotifierOptions, Notifier, end_sleep, reject_waiters, WakeupFields, message_fields,
  is_woken, wakeup_cause, handle_notification,
}
use clawclub_server.Streams.Notifier.NotifierState.{closed}
use clawclub_server.Streams.Notifier.WaitOutcome.{notified, timed_out, aborted, notifier_closed}
use clawclub_server.Streams.Lifecycle.{
  enter_fallback, handle_client_error, connect_listener, client_connected, connect_failed,
  reconnect_due, wait_for_update, close_notifier, create_notifier, Step, Run, begin_sleep,
  ClientsFailAfterError,
}
use clawclub_server.Streams.Lifecycle.Step.{
  client_connects, client_fails, client_errs, timer_fires, message_comes, request_waits,
  wait_times_out, sleep_times_out, sleep_aborts, signal_aborts, closes,
}
use clawclub_server.Streams.Lifecycle.Run.{here, next}
use clawclub_server.Streams.Waiting.{count-filter_sleepers, occurs, Run-occurs}
use clawclub_server.Streams.Waking.{Run-AtMostOnce}
use clawclub_server.Streams.Connection.{
  Recovers, RecoversIf, Connection, end_sleep-connection, finish_waiter-connection,
  finish_each-connection,
}
use clawclub_server.Streams.Recovery.{closed_at, Run-RecoversIf}

closed_shape :
    (P : Type 0) (n : Notifier)
    → n.state ≡ closed
    → RecoversIf P n
    → (n.client ≡ none) × (n.waiters ≡ [])
closed_shape P n e h =
    let (no_client, _, no_waiters) : Recovers P closed n.client n.connect_promise n.reconnect_timer
        n.waiters =
      subst (λ s. Recovers P s n.client n.connect_promise n.reconnect_timer n.waiters) e h in
    (no_client, no_waiters)

begin_sleep-state :
    (signal_aborted : Bool) (n : Notifier) → (begin_sleep signal_aborted n).state ≡ n.state
unfolding begin_sleep
begin_sleep-state true n = refl
begin_sleep-state false n = refl

Step-stays_closed :
    {options : NotifierOptions} {json_fields : Text → Option WakeupFields} {n m : Notifier}
    → Step options json_fields n m
    → n.client ≡ none
    → n.state ≡ closed
    → m.state ≡ closed
unfolding client_connected connect_failed enter_fallback handle_client_error reconnect_due
    connect_listener handle_notification wait_for_update close_notifier reject_waiters
Step-stays_closed {n} (client_connects c p) no_client e = rw no_client e
Step-stays_closed {options} {n} (client_fails c p) no_client e = rw (no_client, e) refl
Step-stays_closed {options} {n} (client_errs c) no_client e = rw e refl
Step-stays_closed {n} (timer_fires delay p) no_client e = rw e refl
Step-stays_closed {json_fields} {n} (message_comes message) no_client e =
    elim (Bool-cases (text_eq message.channel (codes "stream"))) [
      | inl on_stream ↦
          let fields = message_fields json_fields message.payload in
          rw on_stream (
            ap (λ (k : Connection). k.0)
              (finish_each-connection (is_woken fields) (notified (wakeup_cause fields)) n.waiters
                n)
            ∙ e)
      | inr off ↦ rw off e
    ]
Step-stays_closed {n} (request_waits input) no_client e =
    rw e (begin_sleep-state input.signal_aborted (record n { state = closed }))
Step-stays_closed {n} (wait_times_out i) no_client e =
    ap (λ (k : Connection). k.0) (finish_waiter-connection n i timed_out) ∙ e
Step-stays_closed {n} (sleep_times_out i) no_client e =
    ap (λ (k : Connection). k.0) (end_sleep-connection n i timed_out).0 ∙ e
Step-stays_closed {n} (sleep_aborts i) no_client e =
    ap (λ (k : Connection). k.0) (end_sleep-connection n i aborted).0 ∙ e
Step-stays_closed {n} (signal_aborts i) no_client e =
    ap (λ (k : Connection). k.0) (finish_waiter-connection n i aborted) ∙ e
Step-stays_closed {n} closes no_client e =
    ap (λ (k : Connection). k.0)
      (finish_each-connection (λ w. true) notifier_closed n.waiters
        (record n { state = closed; reconnect_timer = none }))

-- The timers of the sleeping requests `ids` fire.
unfoldable pub timers_fire : (ids : List ℕ) → Notifier → Notifier
timers_fire [] n = n
timers_fire (id ∷ ids) n = timers_fire ids (end_sleep n id timed_out)

asleep-count : (i : ℕ) (is : List ℕ) → any (λ k. k == i) is ≡ false → count_by (λ k. k == i) is ≡ 0
asleep-count i [] h = refl
asleep-count i (k ∷ is) h = ground (arith, asleep-count i is)

end_sleep-sleepers :
    (n : Notifier) (i j : ℕ)
    → count_by (λ k. k == i) (end_sleep n j timed_out).sleepers
      ≡ (if i == j then 0 else count_by (λ k. k == i) n.sleepers)
unfolding end_sleep
end_sleep-sleepers n i j = elim (Bool-cases (any (λ k. k == j) n.sleepers)) [
  | inl there ↦ rw there (count-filter_sleepers i j n.sleepers)
  | inr out ↦ rw out (ground (arith, ==_iff i j, asleep-count j n.sleepers out))
]

end_sleep-next_id : (n : Notifier) (j : ℕ) → (end_sleep n j timed_out).next_id ≡ n.next_id
unfolding end_sleep
end_sleep-next_id n j = elim (Bool-cases (any (λ k. k == j) n.sleepers)) [
  | inl there ↦ rw there refl
  | inr out ↦ rw out refl
]

timers_fire-sleepers :
    (ids : List ℕ) (n : Notifier) (i : ℕ)
    → count_by (λ k. k == i) (timers_fire ids n).sleepers
      ≡ (if any (λ k. k == i) ids then 0 else count_by (λ k. k == i) n.sleepers)
unfolding timers_fire
timers_fire-sleepers [] n i = refl
timers_fire-sleepers (j ∷ ids) n i = ground (
  arith,
  timers_fire-sleepers ids (end_sleep n j timed_out) i,
  end_sleep-sleepers n i j,
  ==_iff i j,
  ==_iff j i,
)

timers_fire-keeps :
    (ids : List ℕ) (n : Notifier)
    → ((timers_fire ids n).waiters ≡ n.waiters) × ((timers_fire ids n).next_id ≡ n.next_id)
unfolding timers_fire
timers_fire-keeps [] n = (refl, refl)
timers_fire-keeps (j ∷ ids) n =
    let (waiters, next_id) = timers_fire-keeps ids (end_sleep n j timed_out) in
    (waiters ∙ (end_sleep-connection n j timed_out).1, next_id ∙ end_sleep-next_id n j)

-- Once all timers have fired nobody sleeps.
none_sleeps :
    (n : Notifier) (i : ℕ) → count_by (λ k. k == i) (timers_fire n.sleepers n).sleepers ≡ 0
none_sleeps n i = elim (Bool-cases (any (λ k. k == i) n.sleepers)) [
  | inl there ↦ timers_fire-sleepers n.sleepers n i ∙ rw there refl
  | inr out ↦ timers_fire-sleepers n.sleepers n i ∙ rw out (asleep-count i n.sleepers out)
]

settled_once :
    (m : Notifier) (id : ℕ)
    → m.waiters ≡ []
    → count_by (λ k. k == id) m.sleepers ≡ 0
    → id < m.next_id
    → occurs id m ≡ (if ltb id m.next_id then 1 else 0)
    → count_by (λ s. s.0 == id) m.settled ≡ 1
settled_once m id e asleep lt once =
    ground (arith, asleep, lt→ltb id m.next_id lt, ap (count_by (λ (w : Waiter). w.id == id)) e)

module _ {options : NotifierOptions} {json_fields : Text → Option WakeupFields} where
  Run-trans :
      {start n m : Notifier}
      → Run options json_fields start n
      → Run options json_fields n m
      → Run options json_fields start m
  Run-trans run here = run
  Run-trans run (next more step) = next (Run-trans run more) step

  timers_fire-Run : (ids : List ℕ) (n : Notifier) → Run options json_fields n (timers_fire ids n)
  unfolding timers_fire
  timers_fire-Run [] n = here
  timers_fire-Run (id ∷ ids) n =
      Run-trans (next here (sleep_times_out id)) (timers_fire-Run ids (end_sleep n id timed_out))

  -- A notifier that is closed in a run has neither a client nor waiters.
  Run-closed_shape :
      {n : Notifier}
      → Run options json_fields create_notifier n
      → n.state ≡ closed
      → (n.client ≡ none) × (n.waiters ≡ [])
  Run-closed_shape {n} run e =
      let Sound = ClientsFailAfterError run in
      closed_shape Sound n e (Run-RecoversIf Sound run (λ s. s))

  Run-stays_closed :
      {n m : Notifier}
      → Run options json_fields create_notifier n
      → n.state ≡ closed
      → Run options json_fields n m
      → m.state ≡ closed
  Run-stays_closed run e here = e
  Run-stays_closed run e (next more step) =
      let e' = Run-stays_closed run e more in
      Step-stays_closed step (Run-closed_shape (Run-trans run more) e').0 e'

  -- Closing is final: whatever comes after it, the notifier stays closed and has no waiters, and once
  -- the timers of the requests that sleep have fired, which can always happen next, each request that
  -- ever came past the wait for a connection attempt has been settled, once.
  pub close_notifier-Settled :
      {n m : Notifier}
      → Run options json_fields create_notifier n
      → Run options json_fields (close_notifier n) m
      → let later = timers_fire m.sleepers m in
        (m.state ≡ closed)
        × (m.waiters ≡ [])
        × Run options json_fields m later
        × (later.next_id ≡ m.next_id)
        × ((id : ℕ) → id < m.next_id → count_by (λ s. s.0 == id) later.settled ≡ 1)
  close_notifier-Settled {n} {m} run more =
      let closing = next run closes in
      let is_shut = (closed_at (Unit {0}) n (Run-AtMostOnce run)).1 in
      let shut = Run-stays_closed closing is_shut more in
      let whole = Run-trans closing more in
      let no_waiters = (Run-closed_shape whole shut).1 in
      let firing = timers_fire-Run m.sleepers m in
      let (waiters, next_id) = timers_fire-keeps m.sleepers m in
      (
        shut,
        no_waiters,
        firing,
        next_id,
        λ id lt.
            settled_once (timers_fire m.sleepers m) id (waiters ∙ no_waiters) (none_sleeps m id)
              (subst (λ k. id < k) (sym next_id) lt) (Run-occurs (Run-trans whole firing) id),
      )
