-- ===== src/Quotas/Rolling.antt =====
-- src/quotas.ts: the logged quotas as rolling limits over any sequence of requests.
use clawclub_server.Common.{
  ℕ, ◌+◌, ◌≤◌, ◌≡◌, refl, inl, inr, true, none, List, [], ◌∷◌, arith, after, Bool-cases,
  sum_by_mono,
}
use clawclub_server.Quotas.Allowance.{
  QuotaAction, content_create, messages_send, llm_output_tokens, embedding_query, clubs_apply,
  clubs_create, QuotaPolicy, Fits, plus, at_limit, build_allowance, at_limit-eq-false_iff,
}
use clawclub_server.Quotas.Usage.{
  QuotaDb, QuotaEventRow, count_quota_event_usage, event_units, within_mono, same_action,
  eq_of_same_action,
}
use clawclub_server.Quotas.Enforce.{
  EnforceInput, enforce_event, enforce_messages_send, enforce_content_create, enforce_action_quota,
  is_logged, log_event, maxes_of,
}

-- A request, and the time that passes before it.
pub record TimedRequest : Type 0 where
  pub wait : ℕ
  pub input : EnforceInput

-- Requests one after the other. One that is refused leaves the tables as they were.
pub serve : QuotaPolicy → QuotaDb → ℕ → List TimedRequest → QuotaDb × ℕ
serve p db now [] = (db, now)
serve p db now (r ∷ rs) =
    serve p (after db (enforce_action_quota p db (now + r.wait) r.input)) (now + r.wait) rs

-- In each window no member has more logged requests of an action than its maximum.
pub record WithinQuotas (p : QuotaPolicy) (db : QuotaDb) (now : ℕ) : Type 0 where
  pub fits :
      (member_id : ℕ) (action : QuotaAction)
      → is_logged action ≡ true
      → Fits (count_quota_event_usage db now member_id action) (maxes_of p (p.daily_max action))

event_units_mono :
    (m : ℕ) (a : QuotaAction) (interval now later : ℕ) (r : QuotaEventRow)
    → now ≤ later
    → event_units m a later interval r ≤ event_units m a now interval r
event_units_mono m a interval now later r h = within_mono interval now later r.created_at _ h

-- The same log later on.
age-WithinQuotas :
    (p : QuotaPolicy) (db : QuotaDb) (now wait : ℕ)
    → WithinQuotas p db now
    → WithinQuotas p db (now + wait)
unfolding count_quota_event_usage
age-WithinQuotas p db now wait w = record {
  fits = λ m a h.
      let shrink = λ (interval : ℕ).
        sum_by_mono (event_units m a (now + wait) interval) (event_units m a now interval)
          db.ai_quota_event_log
          (λ r. event_units_mono m a interval now (now + wait) r (omega arith)) in
      omega (arith, w.fits m a h, shrink 86_400_000, shrink 604_800_000, shrink 2_592_000_000);
}

-- The counts after one more row.
log_event-Fits :
    (p : QuotaPolicy) (db : QuotaDb) (now : ℕ) (action : QuotaAction) (member_id : ℕ)
    → WithinQuotas p db now
    → Fits
        (plus (count_quota_event_usage db now member_id action) 1)
        (maxes_of p (p.daily_max action))
    → WithinQuotas p (log_event db now action member_id) now
unfolding count_quota_event_usage
log_event-Fits p db now action member_id w f = record {
  fits = λ m a h. elim (Bool-cases (same_action action a)) [
    | inl same ↦ let e = eq_of_same_action action a same in ground (arith, e, w.fits m a h)
    | inr other ↦ ground (arith, w.fits m a h)
  ];
}

enforce_event-WithinQuotas :
    (p : QuotaPolicy) (db : QuotaDb) (now : ℕ) (action : QuotaAction) (member_id : ℕ)
    → WithinQuotas p db now
    → WithinQuotas p (after db (enforce_event p db now action member_id)) now
unfolding enforce_event
enforce_event-WithinQuotas p db now action member_id w =
    let law =
      at_limit-eq-false_iff p action none (p.daily_max action)
        (count_quota_event_usage db now member_id action) in
    elim (Bool-cases (
      at_limit (
        build_allowance p action none (p.daily_max action)
          (count_quota_event_usage db now member_id action)))) [
            | inl full ↦ rw full w
            | inr free ↦ rw free (log_event-Fits p db now action member_id w (law.0 free))
          ]

-- The other actions only read.
enforce_messages_send_keeps :
    (p : QuotaPolicy) (db : QuotaDb) (now : ℕ) (action : QuotaAction) (member_id : ℕ)
    → after db (enforce_messages_send p db now action member_id) ≡ db
unfolding enforce_messages_send
enforce_messages_send_keeps p db now action member_id = ground arith

enforce_content_create_keeps :
    (p : QuotaPolicy) (db : QuotaDb) (now : ℕ) (input : EnforceInput)
    → after db (enforce_content_create p db now input) ≡ db
unfolding enforce_content_create
enforce_content_create_keeps p db now input = ground arith

enforce_action_quota-WithinQuotas :
    (p : QuotaPolicy) (db : QuotaDb) (now : ℕ) (input : EnforceInput) (action : QuotaAction)
    → input.action ≡ action
    → WithinQuotas p db now
    → WithinQuotas p (after db (enforce_action_quota p db now input)) now
unfolding enforce_action_quota
enforce_action_quota-WithinQuotas p db now input embedding_query e w =
    rw (e, enforce_action_quota)
      (enforce_event-WithinQuotas p db now embedding_query input.member_id w)
enforce_action_quota-WithinQuotas p db now input clubs_apply e w =
    rw (e, enforce_action_quota) (enforce_event-WithinQuotas p db now clubs_apply input.member_id w)
enforce_action_quota-WithinQuotas p db now input clubs_create e w =
    rw (e, enforce_action_quota)
      (enforce_event-WithinQuotas p db now clubs_create input.member_id w)
enforce_action_quota-WithinQuotas p db now input content_create e w =
    rw (e, enforce_action_quota) (rw (enforce_content_create_keeps p db now input) w)
enforce_action_quota-WithinQuotas p db now input messages_send e w =
    rw (e, enforce_action_quota)
      (rw (enforce_messages_send_keeps p db now input.action input.member_id) w)
enforce_action_quota-WithinQuotas p db now input llm_output_tokens e w =
    rw (e, enforce_action_quota)
      (rw (enforce_messages_send_keeps p db now input.action input.member_id) w)

-- If at some time no member has more logged requests of an action than the window maxima, then this
-- still holds after any sequence of requests of any members and actions, whatever time passes
-- between them.
pub serve-WithinQuotas :
    (p : QuotaPolicy) (db : QuotaDb) (now : ℕ) (rs : List TimedRequest)
    → WithinQuotas p db now
    → let (db', later) = serve p db now rs in WithinQuotas p db' later
unfolding serve
serve-WithinQuotas p db now [] w = w
serve-WithinQuotas p db now (r ∷ rs) w =
    serve-WithinQuotas p (after db (enforce_action_quota p db (now + r.wait) r.input))
      (now + r.wait) rs
      (enforce_action_quota-WithinQuotas p db (now + r.wait) r.input r.input.action refl
        (age-WithinQuotas p db now r.wait w))
