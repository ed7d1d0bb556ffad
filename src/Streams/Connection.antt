-- ===== src/Streams/Connection.antt =====
-- When the connection of the notifier can recover, and which passes over the waiters leave it alone.
use clawclub_server.Common.{
  ℕ, ◌≡◌, refl, sym, ◌∙◌, inl, inr, Bool, true, false, ◌||◌, Option, none, some, List, [], ◌∷◌,
  if◌then◌else◌, any, ◌==◌, Bool-cases, subst,
}
use clawclub_server.Streams.Notifier.{
  NotifierState, WaitOutcome, Waiter, Notifier, has_waiter, finish_waiter, finish_each, go_on,
  end_sleep,
}
use clawclub_server.Streams.Notifier.NotifierState.{connecting, listening, fallback, closed}
use clawclub_server.Streams.Lifecycle.{is_set}

-- A notifier that is neither closed nor connected has an attempt under way or a timer for the next
-- one, and only a connected one has waiters. The timer of the fallback rests on `Sound`.
abbrev pub Recovers :
    (Sound : Type 0) (state : NotifierState) (client connect_promise timer : Option ℕ)
    (waiters : List Waiter)
    → Type 0
Recovers Sound connecting client promise timer waiters =
    (c : ℕ) × (client ≡ some c) × (promise ≡ some c) × (timer ≡ none) × (waiters ≡ [])
Recovers Sound listening client promise timer waiters =
    (c : ℕ) × (client ≡ some c) × (promise ≡ none) × (timer ≡ none)
Recovers Sound fallback client promise timer waiters =
    (client ≡ none) × (Sound → is_set timer || is_set promise ≡ true) × (waiters ≡ [])
Recovers Sound closed client promise timer waiters =
    (client ≡ none) × (timer ≡ none) × (waiters ≡ [])

abbrev pub RecoversIf : Type 0 → Notifier → Type 0
RecoversIf Sound n = Recovers Sound n.state n.client n.connect_promise n.reconnect_timer n.waiters

-- With the timer in any case.
abbrev pub RecoversNow : Notifier → Type 0
RecoversNow n = RecoversIf (Unit {0}) n

-- What of the notifier is about its connection.
abbrev pub Connection : Type 0
Connection = NotifierState × Option ℕ × Option ℕ × Option ℕ

abbrev connection : Notifier → Connection
connection n = (n.state, n.client, n.connect_promise, n.reconnect_timer)

go_on-connection :
    (asleep : Bool) (n : Notifier) (i : ℕ) (outcome : WaitOutcome)
    → connection (go_on asleep n i outcome) ≡ connection n
unfolding go_on
go_on-connection true n i outcome = refl
go_on-connection false n i outcome = refl

pub finish_waiter-connection :
    (n : Notifier) (i : ℕ) (outcome : WaitOutcome)
    → connection (finish_waiter n i outcome) ≡ connection n
unfolding finish_waiter
finish_waiter-connection n i outcome = elim (Bool-cases (has_waiter i n.waiters)) [
  | inl e ↦ rw e (go_on-connection _ _ i outcome)
  | inr e ↦ rw e refl
]

-- The end of a sleep keeps the connection and the waiters.
pub end_sleep-connection :
    (n : Notifier) (i : ℕ) (outcome : WaitOutcome)
    → (connection (end_sleep n i outcome) ≡ connection n)
      × ((end_sleep n i outcome).waiters ≡ n.waiters)
unfolding end_sleep
end_sleep-connection n i outcome = elim (Bool-cases (any (λ k. k == i) n.sleepers)) [
  | inl e ↦ rw e (refl, refl)
  | inr e ↦ rw e (refl, refl)
]

finish_if-connection :
    (woken : Bool) (n : Notifier) (i : ℕ) (outcome : WaitOutcome)
    → connection (if woken then finish_waiter n i outcome else n) ≡ connection n
finish_if-connection true n i outcome = finish_waiter-connection n i outcome
finish_if-connection false n i outcome = refl

pub finish_each-connection :
    (wakes : Waiter → Bool) (outcome : WaitOutcome) (copy : List Waiter) (n : Notifier)
    → connection (finish_each wakes outcome copy n) ≡ connection n
unfolding finish_each
finish_each-connection wakes outcome [] n = refl
finish_each-connection wakes outcome (w ∷ copy) n =
    finish_each-connection wakes outcome copy (if wakes w then finish_waiter n w.id outcome else n)
    ∙ finish_if-connection (wakes w) n w.id outcome

-- Finishing waiters leaves none where there were none.
pub finish_waiter-nil :
    (n : Notifier) (i : ℕ) (outcome : WaitOutcome)
    → n.waiters ≡ []
    → (finish_waiter n i outcome).waiters ≡ []
unfolding finish_waiter
finish_waiter-nil n i outcome e = rw e refl

pub finish_each-nil :
    (wakes : Waiter → Bool) (outcome : WaitOutcome) (n : Notifier)
    → n.waiters ≡ []
    → (finish_each wakes outcome n.waiters n).waiters ≡ []
unfolding finish_each
finish_each-nil wakes outcome n e = rw e refl

-- The waiters may become fewer only where there are any.
Recovers-mono :
    (P Q : Type 0) (state : NotifierState) (client promise timer : Option ℕ) (ws vs : List Waiter)
    → (Q → P)
    → (ws ≡ [] → vs ≡ [])
    → Recovers P state client promise timer ws
    → Recovers Q state client promise timer vs
Recovers-mono P Q connecting client promise timer ws vs g f (c, a, b, d, e) = (c, a, b, d, f e)
Recovers-mono P Q listening client promise timer ws vs g f h = h
Recovers-mono P Q fallback client promise timer ws vs g f (a, b, e) = (a, λ q. b (g q), f e)
Recovers-mono P Q closed client promise timer ws vs g f (a, b, e) = (a, b, f e)

-- From another assumption.
pub RecoversIf-mono : (P Q : Type 0) (n : Notifier) → (Q → P) → RecoversIf P n → RecoversIf Q n
RecoversIf-mono P Q n g h =
    Recovers-mono P Q n.state n.client n.connect_promise n.reconnect_timer n.waiters n.waiters g
      (λ e. e) h

-- A step that keeps the connection, and has waiters only where there were some.
pub keeps_connection :
    (P : Type 0) (n m : Notifier)
    → connection m ≡ connection n
    → (n.waiters ≡ [] → m.waiters ≡ [])
    → RecoversIf P n
    → RecoversIf P m
keeps_connection P n m same nil h =
    subst (λ (k : Connection). Recovers P k.0 k.1 k.2 k.3 m.waiters) (sym same)
      (Recovers-mono P P n.state n.client n.connect_promise n.reconnect_timer n.waiters m.waiters
        (λ p. p) nil h)
