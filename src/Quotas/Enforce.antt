-- ===== src/Quotas/Enforce.antt =====
-- src/quotas.ts: `enforceActionQuota`, `getQuotaStatus`, `getClubLlmOutputUsage` and the lookups that
-- they make.
use clawclub_server.Common.{
  ℕ, ◌*◌, ◌≡◌, Bool, true, false, not, ◌&&◌, Option, none, some, List, [], ◌∷◌, arith, ◌==◌,
  if◌then◌else◌, get_or, find, Result, ok, err, ◌>>=◌, ◌>>◌, guard, or_throw,
}
use mathlib.Core.Option
use clawclub_server.Errors.{invalid_data, club_not_found, quota_exceeded}
use clawclub_server.Config.{PerWindow, derive_quota_window_maxes}
use clawclub_server.Quotas.Allowance.{
  QuotaAction, content_create, messages_send, llm_output_tokens, embedding_query, clubs_apply,
  clubs_create, member, QuotaActorInfo, QuotaWindowUsage, StructuredQuotaAllowance, QuotaPolicy,
  effective_multiplier, make_window_usage, build_allowance, at_limit, Fits, plus,
  at_limit-eq-false_iff,
}
use clawclub_server.Quotas.Usage.{
  QuotaDb, count_content_create_usage, count_messages_send_usage, count_quota_event_usage,
  count_llm_output_usage, count_club_llm_output_usage,
}

pub record EnforceInput : Type 0 where
  pub action : QuotaAction
  pub member_id : ℕ
  pub club_id : Option ℕ
  pub actor_info : Option QuotaActorInfo

unfoldable pub load_content_quota_actor_info : QuotaDb → ℕ → ℕ → Result QuotaActorInfo
load_content_quota_actor_info db member_id club_id = do
  acm ←
      or_throw
        (find (λ m. m.member_id == member_id && m.club_id == club_id)
          db.accessible_club_memberships)
        club_not_found
  c ← or_throw (find (λ c. c.id == club_id) db.clubs) club_not_found
  ok (record { role = acm.role; is_owner = c.owner_member_id == member_id })

-- quotaConfig.clubOverrides[row.slug]
abbrev club_override : List (ℕ × ℕ) → ℕ → Option ℕ
club_override overrides slug = Option.map (λ o. o.1) (find (λ o. o.0 == slug) overrides)

unfoldable pub resolve_content_create_base_quota : QuotaPolicy → QuotaDb → ℕ → Result ℕ
resolve_content_create_base_quota p db club_id = do
  row ← or_throw (find (λ c. c.id == club_id) db.clubs) club_not_found
  ok (get_or (club_override p.club_overrides row.slug) (p.daily_max content_create))

abbrev or_load : Option QuotaActorInfo → Result QuotaActorInfo → Result QuotaActorInfo
or_load (some info) load = ok info
or_load none load = load

-- The allowance of a global request quota, with the counts of its log.
abbrev global_allowance :
    QuotaPolicy → QuotaAction → QuotaAction → PerWindow → StructuredQuotaAllowance
global_allowance p action limited counts =
    build_allowance p action none (p.daily_max limited) counts

unfoldable pub enforce_content_create :
    QuotaPolicy → QuotaDb → ℕ → EnforceInput → Result (StructuredQuotaAllowance × QuotaDb)
unfolding load_content_quota_actor_info resolve_content_create_base_quota
enforce_content_create p db now input = do
  club_id ← or_throw input.club_id invalid_data
  actor_info ← or_load input.actor_info (load_content_quota_actor_info db input.member_id club_id)
  base_quota ← resolve_content_create_base_quota p db club_id
  let a =
      build_allowance p content_create (some club_id)
        (base_quota * effective_multiplier p actor_info)
        (count_content_create_usage db now input.member_id club_id)
  guard (not (at_limit a)) quota_exceeded
  ok (a, db)

unfoldable pub enforce_event :
    QuotaPolicy → QuotaDb → ℕ → QuotaAction → ℕ → Result (StructuredQuotaAllowance × QuotaDb)
enforce_event p db now action member_id = do
  let a = global_allowance p action action (count_quota_event_usage db now member_id action)
  guard (not (at_limit a)) quota_exceeded
  ok (
    a,
    record db {
      ai_quota_event_log =
          record { member_id = member_id; action_name = action; created_at = now }
          ∷ db.ai_quota_event_log;
    },
  )

unfoldable pub enforce_messages_send :
    QuotaPolicy → QuotaDb → ℕ → QuotaAction → ℕ → Result (StructuredQuotaAllowance × QuotaDb)
enforce_messages_send p db now action member_id = do
  let a = global_allowance p action messages_send (count_messages_send_usage db now member_id)
  guard (not (at_limit a)) quota_exceeded
  ok (a, db)

unfoldable pub enforce_action_quota :
    QuotaPolicy → QuotaDb → ℕ → EnforceInput → Result (StructuredQuotaAllowance × QuotaDb)
enforce_action_quota p db now input = elim input.action [
  | content_create ↦ enforce_content_create p db now input
  | embedding_query ↦ enforce_event p db now embedding_query input.member_id
  | clubs_apply ↦ enforce_event p db now clubs_apply input.member_id
  | clubs_create ↦ enforce_event p db now clubs_create input.member_id
  | other ↦ enforce_messages_send p db now input.action input.member_id
]

-- The actor's role in a club for `getQuotaStatus`: of two memberships in one club the last one counts.
abbrev membership_info : List (ℕ × QuotaActorInfo) → ℕ → QuotaActorInfo → QuotaActorInfo
membership_info [] club_id info = info
membership_info ((c, found) ∷ rest) club_id info =
    membership_info rest club_id (if c == club_id then found else info)

unfoldable pub club_allowances :
    QuotaPolicy
    → QuotaDb
    → ℕ
    → ℕ
    → List (ℕ × QuotaActorInfo)
    → List ℕ
    → Result (List StructuredQuotaAllowance)
unfolding resolve_content_create_base_quota
club_allowances p db now member_id memberships [] = ok []
club_allowances p db now member_id memberships (club_id ∷ club_ids) = do
  let actor_info = membership_info memberships club_id (record { role = member; is_owner = false })
  base_quota ← resolve_content_create_base_quota p db club_id
  rest ← club_allowances p db now member_id memberships club_ids
  ok (
      build_allowance p content_create (some club_id)
        (base_quota * effective_multiplier p actor_info)
        (count_content_create_usage db now member_id club_id)
      ∷ build_allowance p llm_output_tokens (some club_id) (p.daily_max llm_output_tokens)
          (count_llm_output_usage db now member_id club_id)
      ∷ rest)

-- `club_ids` is the sorted list without repetitions that the code makes of its argument.
unfoldable pub get_quota_status :
    QuotaPolicy
    → QuotaDb
    → ℕ
    → ℕ
    → List (ℕ × QuotaActorInfo)
    → List ℕ
    → Result (List StructuredQuotaAllowance)
get_quota_status p db now member_id memberships club_ids = do
  clubs ← club_allowances p db now member_id memberships club_ids
  ok (
      global_allowance p messages_send messages_send (count_messages_send_usage db now member_id)
      ∷ global_allowance p embedding_query embedding_query
          (count_quota_event_usage db now member_id embedding_query)
      ∷ global_allowance p clubs_apply clubs_apply
          (count_quota_event_usage db now member_id clubs_apply)
      ∷ global_allowance p clubs_create clubs_create
          (count_quota_event_usage db now member_id clubs_create)
      ∷ clubs)

unfoldable pub get_club_llm_output_usage : QuotaPolicy → QuotaDb → ℕ → ℕ → List QuotaWindowUsage
get_club_llm_output_usage p db now club_id =
    make_window_usage
      (derive_quota_window_maxes (p.daily_max llm_output_tokens) p.window_multipliers)
      (count_club_llm_output_usage db now club_id)

abbrev pub maxes_of : QuotaPolicy → ℕ → PerWindow
maxes_of p daily_max = derive_quota_window_maxes daily_max p.window_multipliers

-- The actions whose requests are counted by their own log.
abbrev pub is_logged : QuotaAction → Bool
is_logged embedding_query = true
is_logged clubs_apply = true
is_logged clubs_create = true
is_logged _ = false

abbrev pub log_event : QuotaDb → ℕ → QuotaAction → ℕ → QuotaDb
log_event db now action member_id = record db {
  ai_quota_event_log =
      record { member_id = member_id; action_name = action; created_at = now }
      ∷ db.ai_quota_event_log;
}

module _ (p : QuotaPolicy) (db : QuotaDb) (now : ℕ) (action : QuotaAction) (member_id : ℕ) where
  pub enforce_event-Fits :
      Fits
        (plus (count_quota_event_usage db now member_id action) 1)
        (maxes_of p (p.daily_max action))
      → enforce_event p db now action member_id
        ≡ ok (
          build_allowance p action none
              (p.daily_max action)
              (count_quota_event_usage db now member_id action),
          log_event db now action member_id,
        )
  unfolding enforce_event
  enforce_event-Fits f = rw (
      (at_limit-eq-false_iff p action none (p.daily_max action)
          (count_quota_event_usage db now member_id action)).1
        f)

  pub enforce_event_full :
      ¬ Fits
        (plus (count_quota_event_usage db now member_id action) 1)
        (maxes_of p (p.daily_max action))
      → enforce_event p db now action member_id ≡ err quota_exceeded
  unfolding enforce_event
  enforce_event_full f = ground (
    arith,
    at_limit-eq-false_iff p action none (p.daily_max action)
        (count_quota_event_usage db now member_id action),
  )

-- Each of the logged actions (embedding.query, clubs.apply, clubs.create) passes exactly when one
-- more request fits into its three windows. It then returns the allowance counted before the request
-- and adds one row to the log, and nothing else; otherwise the error is quota_exceeded.
pub enforce_action_quota_logged :
    (p : QuotaPolicy) (db : QuotaDb) (now : ℕ) (action : QuotaAction) (member_id : ℕ)
    (club_id : Option ℕ) (actor_info : Option QuotaActorInfo)
    → is_logged action ≡ true
    → let request = enforce_action_quota p db now (record {
      action = action;
      member_id = member_id;
      club_id = club_id;
      actor_info = actor_info;
    }) in
      let used = count_quota_event_usage db now member_id action in
      let maxes = maxes_of p (p.daily_max action) in
      (Fits (plus used 1) maxes
        → request
          ≡ ok (
            build_allowance p action none (p.daily_max action) used,
            log_event db now action member_id,
          ))
      × (¬ Fits (plus used 1) maxes → request ≡ err quota_exceeded)
unfolding enforce_action_quota
enforce_action_quota_logged p db now embedding_query m c i h =
    (enforce_event-Fits p db now embedding_query m, enforce_event_full p db now embedding_query m)
enforce_action_quota_logged p db now clubs_apply m c i h =
    (enforce_event-Fits p db now clubs_apply m, enforce_event_full p db now clubs_apply m)
enforce_action_quota_logged p db now clubs_create m c i h =
    (enforce_event-Fits p db now clubs_create m, enforce_event_full p db now clubs_create m)
enforce_action_quota_logged p db now content_create m c i h = cc
enforce_action_quota_logged p db now messages_send m c i h = cc
enforce_action_quota_logged p db now llm_output_tokens m c i h = cc
