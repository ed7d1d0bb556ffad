-- ===== src/Dispatch/Exec.antt =====
-- A run of the dispatcher (src/dispatch.ts): the calls that it makes, newest first, and a result or the
-- code of the error that it throws. What was called before a throw stays called.
use clawclub_server.Common.{ℕ, List, ◌∷◌, Result, ok, err}
use clawclub_server.Errors.{ErrorCode}

-- The calls that change something outside, with the ids of the reservations. A `failed_call` was made
-- and changed nothing.
pub data Effect : Type 0 where
  stamped_member logged_request : Effect
  enforced_quota : Effect
  reserved_spend released_spend : ℕ → Effect
  finalized_spend : (id prompt_tokens completion_tokens : ℕ) → Effect
  reserved_output : ℕ → Effect
  finalized_output : (id tokens : ℕ) → Effect
  ran_gate logged_usage : Effect
  stored_terminal_error : ErrorCode → Effect
  ran_handler : Effect
  failed_call : Effect → Effect

abbrev pub Exec : Type 0 → Type 0
Exec A = List Effect → Result A × List Effect

module _ {A : Type 0} where
  abbrev pub pure : A → Exec A
  pure a trace = (ok a, trace)

  abbrev pub throw : ErrorCode → Exec A
  throw e trace = (err e, trace)

  abbrev pub lift : Result A → Exec A
  lift r trace = (r, trace)

  -- A call that is made, whatever it answers.
  abbrev pub call : Effect → Result A → Exec A
  call e r trace = (r, e ∷ trace)

-- How a call that settles a reservation is recorded: its transaction fails as a whole.
unfoldable pub answered : {A : Type 0} → Result A → Effect → Effect
answered (ok a) e = e
answered (err x) e = failed_call e

abbrev pub settle_call : Effect → Result (Unit {0}) → Exec (Unit {0})
settle_call e r trace = (r, answered r e ∷ trace)

-- Such a call, whose failure is caught and logged.
abbrev pub safely_settle : Effect → Result (Unit {0}) → Exec (Unit {0})
safely_settle e r trace = (ok tt, answered r e ∷ trace)

-- A call that only logs, or whose failure is caught and logged.
abbrev pub safely : Effect → Exec (Unit {0})
safely e trace = (ok tt, e ∷ trace)

module _ {A B : Type 0} where
  abbrev pub continue : Result A → (A → Exec B) → Exec B
  continue (ok a) f trace = f a trace
  continue (err e) f trace = (err e, trace)

  infixl 5 ◌>>=◌
  abbrev pub ◌>>=◌ : Exec A → (A → Exec B) → Exec B
  ◌>>=◌ m f trace = continue (m trace).0 f (m trace).1

  abbrev recover : Result A → Exec B → Exec A
  recover (ok a) h trace = (ok a, trace)
  recover (err e) h trace = (err e, (h trace).1)

  -- try { m } catch (error) { h; throw error }
  abbrev pub rethrowing : Exec A → Exec B → Exec A
  rethrowing m h trace = recover (m trace).0 h (m trace).1

infixl 5 ◌>>◌
abbrev pub ◌>>◌ : {B : Type 0} → Exec (Unit {0}) → Exec B → Exec B
m >> k = m >>= λ _. k
