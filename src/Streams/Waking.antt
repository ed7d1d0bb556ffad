-- ===== src/Streams/Waking.antt =====
-- Which requests a pass over the waiters settles.
use mathlib.Core.List.{reverse, reverse-append}
use clawclub_server.Common.{
  ℕ, ◌+◌, ◌≤◌, ◌≡◌, refl, sym, ap, ◌∙◌, inl, inr, Bool, true, false, not, Option, List, [], ◌∷◌,
  ◌++◌, map, arith, ◌==◌, if◌then◌else◌, count_by, filter, Bool-cases, ==_refl, count_by-append,
  Text, text_eq_iff, codes, subst, append_assoc,
}
use clawclub_server.Streams.Notifier.{
  WaitOutcome, Waiter, NotifierOptions, Notifier, has_waiter, has_aborted, falls_asleep, go_on,
  finish_waiter, finish_each, reject_waiters, WakeupFields, ChannelMessage, message_fields,
  is_woken, wakeup_cause, handle_notification,
}
use clawclub_server.Streams.Notifier.WaitOutcome.{notified}
use clawclub_server.Streams.Lifecycle.{create_notifier, Run}
use clawclub_server.Streams.Waiting.{Run-occurs}

abbrev pub AtMostOnce : List Waiter → Type 0
AtMostOnce ws = (i : ℕ) → count_by (λ w. w.id == i) ws ≤ 1

other : ℕ → Waiter → Bool
other i w = not (w.id == i)

filter-append :
    (p : Waiter → Bool) (xs ys : List Waiter) → filter p (xs ++ ys) ≡ filter p xs ++ filter p ys
filter-append p [] ys = refl
filter-append p (x ∷ xs) ys = ground (arith, filter-append p xs ys)

filter_absent :
    (i : ℕ) (ws : List Waiter) → count_by (λ w. w.id == i) ws ≡ 0 → filter (other i) ws ≡ ws
unfolding other
filter_absent i [] h = refl
filter_absent i (w ∷ ws) h = ground (arith, filter_absent i ws)

remove_one :
    (kept copy : List Waiter) (w : Waiter)
    → AtMostOnce (kept ++ w ∷ copy)
    → filter (other w.id) (kept ++ w ∷ copy) ≡ kept ++ copy
unfolding other
remove_one kept copy w once =
    let at_most : count_by (λ v. v.id == w.id) kept + (1 + count_by (λ v. v.id == w.id) copy) ≤ 1 =
      ground (
        arith,
        once w.id,
        count_by-append (λ (v : Waiter). v.id == w.id) kept (w ∷ copy),
        ==_refl w.id,
      ) in
    filter-append (other w.id) kept (w ∷ copy)
    ∙ rw
        (
          ==_refl w.id,
          filter_absent w.id kept (omega (arith, at_most)),
          filter_absent w.id copy (omega (arith, at_most)),
        )
        refl

has_waiter-append :
    (kept copy : List Waiter) (w : Waiter) → has_waiter w.id (kept ++ w ∷ copy) ≡ true
has_waiter-append [] copy w = rw (==_refl w.id) refl
has_waiter-append (v ∷ kept) copy w = ground (arith, has_waiter-append kept copy w)

still_once :
    (kept copy : List Waiter) (w : Waiter)
    → AtMostOnce (kept ++ w ∷ copy)
    → AtMostOnce (kept ++ copy)
still_once kept copy w once i = ground (
  arith,
  once i,
  count_by-append (λ (v : Waiter). v.id == i) kept (w ∷ copy),
  count_by-append (λ (v : Waiter). v.id == i) kept copy,
)

-- What a pass over `copy` settles, the last first.
abbrev pub answers :
    (wakes : Waiter → Bool) (outcome : WaitOutcome) → List Waiter → List (ℕ × WaitOutcome)
answers wakes outcome copy = reverse (map (λ w. (w.id, outcome)) (filter wakes copy))

answers-cons :
    (wakes : Waiter → Bool) (outcome : WaitOutcome) (w : Waiter) (copy : List Waiter)
    (settled : List (ℕ × WaitOutcome))
    → wakes w ≡ true
    → answers wakes outcome (w ∷ copy) ++ settled
      ≡ answers wakes outcome copy ++ (w.id, outcome) ∷ settled
answers-cons wakes outcome w copy settled h =
    let first : ℕ × WaitOutcome = (w.id, outcome) in
    rw
      (
        h,
        reverse-append {A = ℕ × WaitOutcome} (first ∷ [])
            (map (λ (v : Waiter). (v.id, outcome)) (filter wakes copy)),
      )
      (append_assoc (answers wakes outcome copy) (first ∷ []) settled)

-- An outcome after which no request sleeps.
abbrev NeverSleeps : WaitOutcome → Type 0
NeverSleeps outcome = (signal_aborted : Bool) → falls_asleep outcome signal_aborted ≡ false

-- The notifier after the pass, of which the first part of the waiters is `kept`.
Passed :
    (wakes : Waiter → Bool) (outcome : WaitOutcome) (kept copy : List Waiter) (n m : Notifier)
    → Type 0
Passed wakes outcome kept copy n m =
    (m.waiters ≡ kept ++ filter (λ w. not (wakes w)) copy)
    × (NeverSleeps outcome → m.settled ≡ answers wakes outcome copy ++ n.settled)

go_on-waiters :
    (asleep : Bool) (n : Notifier) (i : ℕ) (outcome : WaitOutcome)
    → (go_on asleep n i outcome).waiters ≡ n.waiters
unfolding go_on
go_on-waiters true n i outcome = refl
go_on-waiters false n i outcome = refl

finish_head :
    (outcome : WaitOutcome) (w : Waiter) (kept copy : List Waiter) (n : Notifier)
    → n.waiters ≡ kept ++ w ∷ copy
    → AtMostOnce (kept ++ w ∷ copy)
    → ((finish_waiter n w.id outcome).waiters ≡ kept ++ copy)
      × (NeverSleeps outcome → (finish_waiter n w.id outcome).settled ≡ (w.id, outcome) ∷ n.settled)
unfolding finish_waiter other go_on
finish_head outcome w kept copy n e once =
    let there : has_waiter w.id n.waiters ≡ true = rw e (has_waiter-append kept copy w) in
    let asleep = falls_asleep outcome (has_aborted w.id n.waiters) in
    let left = record n { waiters = filter (other w.id) n.waiters } in
    rw there (
      go_on-waiters asleep left w.id outcome
          ∙ ap (filter (other w.id)) e
          ∙ remove_one kept copy w once,
      λ awake. ap (λ b. (go_on b left w.id outcome).settled) (awake (has_aborted w.id n.waiters)),
    )

module _ (wakes : Waiter → Bool) (outcome : WaitOutcome) (w : Waiter)
    (copy kept : List Waiter) where
  -- One turn of the loop.
  pass :
      (n : Notifier) {b : Bool}
      → wakes w ≡ b
      → finish_each wakes outcome (w ∷ copy) n
        ≡ finish_each wakes outcome copy (if b then finish_waiter n w.id outcome else n)
  unfolding finish_each
  pass n e =
      ap (λ b. finish_each wakes outcome copy (if b then finish_waiter n w.id outcome else n)) e

  dropped :
      wakes w ≡ true → filter (λ v. not (wakes v)) (w ∷ copy) ≡ filter (λ v. not (wakes v)) copy
  dropped e = rw e refl

  stays :
      wakes w ≡ false
      → filter (λ v. not (wakes v)) (w ∷ copy) ≡ w ∷ filter (λ v. not (wakes v)) copy
  stays e = rw e refl

  unanswered : wakes w ≡ false → answers wakes outcome (w ∷ copy) ≡ answers wakes outcome copy
  unanswered e = rw e refl

  regroup : kept ++ w ∷ copy ≡ (kept ++ w ∷ []) ++ copy
  regroup = sym (append_assoc kept (w ∷ []) copy)

finish_each_lem :
    (wakes : Waiter → Bool) (outcome : WaitOutcome) (copy kept : List Waiter) (n : Notifier)
    → n.waiters ≡ kept ++ copy
    → AtMostOnce (kept ++ copy)
    → Passed wakes outcome kept copy n (finish_each wakes outcome copy n)
unfolding finish_each Passed
finish_each_lem wakes outcome [] kept n e once = (e, λ awake. refl)
finish_each_lem wakes outcome (w ∷ copy) kept n e once = elim (Bool-cases (wakes w)) [
  | inl woken ↦
      let (left, settled) = finish_head outcome w kept copy n e once in
      let (waiters, all_settled) =
        finish_each_lem wakes outcome copy kept (finish_waiter n w.id outcome) left
          (still_once kept copy w once) in
      subst (Passed wakes outcome kept (w ∷ copy) n) (sym (pass wakes outcome w copy kept n woken))
        (
          waiters ∙ ap (λ ws. kept ++ ws) (sym (dropped wakes outcome w copy kept woken)),
          λ awake.
              all_settled awake
              ∙ ap (λ s. answers wakes outcome copy ++ s) (settled awake)
              ∙ sym (answers-cons wakes outcome w copy n.settled woken),
        )
  | inr asleep ↦
      let (waiters, all_settled) =
        finish_each_lem wakes outcome copy (kept ++ w ∷ []) n
          (e ∙ regroup wakes outcome w copy kept)
          (subst AtMostOnce (regroup wakes outcome w copy kept) once) in
      subst (Passed wakes outcome kept (w ∷ copy) n) (sym (pass wakes outcome w copy kept n asleep))
        (
          waiters
              ∙ append_assoc kept (w ∷ []) (filter (λ v. not (wakes v)) copy)
              ∙ ap (λ ws. kept ++ ws) (sym (stays wakes outcome w copy kept asleep)),
          λ awake.
              all_settled awake
              ∙ ap (λ s. s ++ n.settled) (sym (unanswered wakes outcome w copy kept asleep)),
        )
]

pub Run-AtMostOnce :
    {options : NotifierOptions} {json_fields : Text → Option WakeupFields} {n : Notifier}
    → Run options json_fields create_notifier n
    → AtMostOnce n.waiters
Run-AtMostOnce run i = ground (arith, Run-occurs run i)

-- A message of the channel `stream` settles the waiting requests that `is_woken` picks.
pub handle_notification_picks :
    {options : NotifierOptions} {json_fields : Text → Option WakeupFields} {n : Notifier}
    → Run options json_fields create_notifier n
    → (message : ChannelMessage) → message.channel ≡ codes "stream"
    → let fields = message_fields json_fields message.payload in
      let after_it = handle_notification json_fields message n in
      (after_it.waiters ≡ filter (λ w. not (is_woken fields w)) n.waiters)
      × (after_it.settled
          ≡ answers (is_woken fields) (notified (wakeup_cause fields)) n.waiters ++ n.settled)
unfolding handle_notification Passed falls_asleep
handle_notification_picks {json_fields} {n} run message e =
    let on_stream = (text_eq_iff message.channel (codes "stream")).1 e in
    let fields = message_fields json_fields message.payload in
    let (waiters, settled) =
      finish_each_lem (is_woken fields) (notified (wakeup_cause fields)) n.waiters [] n refl
        (Run-AtMostOnce run) in
    rw on_stream (waiters, settled (λ signal_aborted. refl))

filter_none : (ws : List Waiter) → filter (λ w. not true) ws ≡ []
filter_none [] = refl
filter_none (w ∷ ws) = filter_none ws

-- Once all waiters are rejected there are none.
pub reject_waiters-waiters :
    (outcome : WaitOutcome) (n : Notifier)
    → AtMostOnce n.waiters
    → (reject_waiters outcome n).waiters ≡ []
unfolding reject_waiters Passed
reject_waiters-waiters outcome n once =
    (finish_each_lem (λ w. true) outcome n.waiters [] n refl once).0 ∙ filter_none n.waiters
