-- ===== src/Quotas/Allowance.antt =====
-- src/quotas.ts and src/quota-metadata.ts: actions, allowances, and what the windows say of them.
use clawclub_server.Common.{
  ℕ, ◌+◌, ◌-◌, ◌≤◌, ◌≡◌, ◌↔◌, Bool, false, Option, List, [], ◌∷◌, arith, leb, ltb, if◌then◌else◌,
  any, find,
}
use clawclub_server.Config.{
  PerWindow, WindowMultipliers, RoleMultipliers, derive_quota_window_maxes,
}

pub data QuotaAction : Type 0 where
  content_create messages_send llm_output_tokens embedding_query clubs_apply clubs_create :
      QuotaAction

pub data QuotaMetric : Type 0 where
  requests output_tokens : QuotaMetric

pub data QuotaScope : Type 0 where
  per_club_member per_member_global : QuotaScope

pub record QuotaActionMeta : Type 0 where
  pub metric : QuotaMetric
  pub scope : QuotaScope

unfoldable pub get_quota_action_meta : QuotaAction → QuotaActionMeta
get_quota_action_meta content_create = record { metric = requests; scope = per_club_member }
get_quota_action_meta messages_send = record { metric = requests; scope = per_member_global }
get_quota_action_meta embedding_query = record { metric = requests; scope = per_member_global }
get_quota_action_meta clubs_apply = record { metric = requests; scope = per_member_global }
get_quota_action_meta clubs_create = record { metric = requests; scope = per_member_global }
get_quota_action_meta llm_output_tokens = record { metric = output_tokens; scope = per_club_member }

pub data QuotaWindowName : Type 0 where
  day week month : QuotaWindowName

pub data MemberRole : Type 0 where
  member clubadmin : MemberRole

pub record QuotaActorInfo : Type 0 where
  pub role : MemberRole
  pub is_owner : Bool

pub record QuotaWindowUsage : Type 0 where
  pub window : QuotaWindowName
  pub maximum : ℕ
  pub used : ℕ
  pub remaining : ℕ

pub record StructuredQuotaAllowance : Type 0 where
  pub action : QuotaAction
  pub metric : QuotaMetric
  pub scope : QuotaScope
  pub club_id : Option ℕ
  pub windows : List QuotaWindowUsage

-- The part of `getConfig().policy.quotas` that the code reads.
pub record QuotaPolicy : Type 0 where
  pub window_multipliers : WindowMultipliers
  pub role_multipliers : RoleMultipliers
  pub daily_max : QuotaAction → ℕ
  pub club_overrides : List (ℕ × ℕ)

abbrev role_multiplier : RoleMultipliers → MemberRole → ℕ
role_multiplier m clubadmin = m.clubadmin
role_multiplier m member = m.member

unfoldable pub effective_multiplier : QuotaPolicy → QuotaActorInfo → ℕ
effective_multiplier p actor =
    if actor.is_owner
    then p.role_multipliers.club_owner
    else role_multiplier p.role_multipliers actor.role

abbrev window_usage : QuotaWindowName → ℕ → ℕ → QuotaWindowUsage
window_usage w m u = record { window = w; maximum = m; used = u; remaining = m - u }

-- `Math.max(0, max - count)` is the subtraction of ℕ.
unfoldable pub make_window_usage : PerWindow → PerWindow → List QuotaWindowUsage
make_window_usage maxes counts =
    window_usage day maxes.day counts.day
    ∷ window_usage week maxes.week counts.week
    ∷ window_usage month maxes.month counts.month
    ∷ []

unfoldable pub build_allowance :
    QuotaPolicy → QuotaAction → Option ℕ → ℕ → PerWindow → StructuredQuotaAllowance
unfolding get_quota_action_meta make_window_usage
build_allowance p action club_id daily_max counts = record {
  action = action;
  metric = (get_quota_action_meta action).metric;
  scope = (get_quota_action_meta action).scope;
  club_id = club_id;
  windows = make_window_usage (derive_quota_window_maxes daily_max p.window_multipliers) counts;
}

-- allowance.windows.some((window) => window.used >= window.max)
unfoldable pub at_limit : StructuredQuotaAllowance → Bool
at_limit a = any (λ w. leb w.maximum w.used) a.windows

-- allowance.windows.some((window) => window.used + amount > window.max)
unfoldable pub over_limit : StructuredQuotaAllowance → ℕ → Bool
over_limit a amount = any (λ w. ltb w.maximum (w.used + amount)) a.windows

-- The window that the message of `quotaExceededError` names; `none` is the message without a window.
unfoldable pub exceeded_window : StructuredQuotaAllowance → ℕ → Option QuotaWindowUsage
exceeded_window a amount = find (λ w. ltb w.maximum (w.used + amount)) a.windows

-- What lies within the maxima of the three windows.
abbrev pub Fits : PerWindow → PerWindow → Type 0
Fits counts maxes =
    (counts.day ≤ maxes.day) × (counts.week ≤ maxes.week) × (counts.month ≤ maxes.month)

abbrev pub plus : PerWindow → ℕ → PerWindow
plus c n = record { day = c.day + n; week = c.week + n; month = c.month + n }

module _ (p : QuotaPolicy) (action : QuotaAction) (club_id : Option ℕ) (daily_max : ℕ)
    (counts : PerWindow) where
  -- A reservation passes exactly when it fits into every window.
  pub over_limit-eq-false_iff :
      (amount : ℕ)
      → (over_limit (build_allowance p action club_id daily_max counts) amount ≡ false)
        ↔ Fits (plus counts amount) (derive_quota_window_maxes daily_max p.window_multipliers)
  unfolding over_limit build_allowance
  over_limit-eq-false_iff amount = ground arith

  -- A request passes exactly when one more fits into every window.
  pub at_limit-eq-false_iff :
      (at_limit (build_allowance p action club_id daily_max counts) ≡ false)
      ↔ Fits (plus counts 1) (derive_quota_window_maxes daily_max p.window_multipliers)
  unfolding at_limit build_allowance
  at_limit-eq-false_iff = ground arith
