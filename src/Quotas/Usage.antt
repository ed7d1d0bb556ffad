-- ===== src/Quotas/Usage.antt =====
-- src/quotas.ts: the tables that the quotas read, and the queries that count usage in the rolling
-- windows of 24 hours, 7 days and 30 days.
use clawclub_server.Common.{
  ℕ, ◌+◌, ◌≤◌, ◌≡◌, refl, Bool, true, false, ◌&&◌, Option, List, arith, ltb, leb, ◌==◌,
  if◌then◌else◌, get_or, sum_by,
}
use clawclub_server.Config.{PerWindow}
use clawclub_server.Quotas.Allowance.{
  QuotaAction, content_create, messages_send, llm_output_tokens, embedding_query, clubs_apply,
  clubs_create, MemberRole,
}

-- Every kind of content is one of `CONTENT_CREATE_KINDS`.
pub record ContentRow : Type 0 where
  pub author_member_id : ℕ
  pub club_id : ℕ
  pub created_at : ℕ

pub record DmMessageRow : Type 0 where
  pub sender_member_id : ℕ
  pub created_at : ℕ

pub record QuotaEventRow : Type 0 where
  pub member_id : ℕ
  pub action_name : QuotaAction
  pub created_at : ℕ

pub data ReservationStatus : Type 0 where
  pending finalized released : ReservationStatus

pub record LlmReservationRow : Type 0 where
  pub id : ℕ
  pub member_id : ℕ
  pub club_id : ℕ
  pub status : ReservationStatus
  pub reserved_output_tokens : ℕ
  pub actual_output_tokens : Option ℕ
  pub created_at : ℕ
  pub expires_at : ℕ

pub record ClubRow : Type 0 where
  pub id : ℕ
  pub slug : ℕ
  pub owner_member_id : ℕ

pub record AccessibleMembershipRow : Type 0 where
  pub club_id : ℕ
  pub member_id : ℕ
  pub role : MemberRole

pub record QuotaDb : Type 0 where
  pub contents : List ContentRow
  pub dm_messages : List DmMessageRow
  pub ai_quota_event_log : List QuotaEventRow
  pub ai_llm_quota_reservations : List LlmReservationRow
  pub clubs : List ClubRow
  pub accessible_club_memberships : List AccessibleMembershipRow

abbrev pub day_ms : ℕ
day_ms = 86_400_000

abbrev pub week_ms : ℕ
week_ms = 604_800_000

abbrev pub month_ms : ℕ
month_ms = 2_592_000_000

-- created_at >= now() - interval
abbrev pub since : ℕ → ℕ → ℕ → Bool
since interval now created_at = leb now (created_at + interval)

-- case when created_at >= now() - interval then v else 0 end
abbrev pub within : ℕ → ℕ → ℕ → ℕ → ℕ
within interval now created_at v = if since interval now created_at then v else 0

abbrev pub per_window : (ℕ → ℕ) → PerWindow
per_window f = record { day = f day_ms; week = f week_ms; month = f month_ms }

abbrev pub same_action : QuotaAction → QuotaAction → Bool
same_action content_create content_create = true
same_action messages_send messages_send = true
same_action llm_output_tokens llm_output_tokens = true
same_action embedding_query embedding_query = true
same_action clubs_apply clubs_apply = true
same_action clubs_create clubs_create = true
same_action _ _ = false

abbrev one_if : Bool → ℕ
one_if b = if b then 1 else 0

unfoldable pub count_content_create_usage : QuotaDb → ℕ → ℕ → ℕ → PerWindow
count_content_create_usage db now member_id club_id = per_window λ interval.
    sum_by
      (λ r.
        within interval now r.created_at
          (one_if (r.author_member_id == member_id && r.club_id == club_id)))
      db.contents

unfoldable pub count_messages_send_usage : QuotaDb → ℕ → ℕ → PerWindow
count_messages_send_usage db now member_id = per_window λ interval.
    sum_by (λ r. within interval now r.created_at (one_if (r.sender_member_id == member_id)))
      db.dm_messages

abbrev pub event_units : ℕ → QuotaAction → ℕ → ℕ → QuotaEventRow → ℕ
event_units member_id action now interval r =
    within interval now r.created_at
      (one_if (r.member_id == member_id && same_action r.action_name action))

unfoldable pub count_quota_event_usage : QuotaDb → ℕ → ℕ → QuotaAction → PerWindow
count_quota_event_usage db now member_id action =
    per_window λ interval. sum_by (event_units member_id action now interval) db.ai_quota_event_log

-- The inner `case` on the status: a pending reservation counts until it expires, at what it reserves.
abbrev pub reservation_value : ReservationStatus → ℕ → ℕ → ℕ → Option ℕ → ℕ
reservation_value pending now expires_at reserved actual =
    if ltb now expires_at then reserved else 0
reservation_value finalized now expires_at reserved actual = get_or actual 0
reservation_value released now expires_at reserved actual = 0

abbrev pub llm_units : ℕ → ℕ → LlmReservationRow → ℕ
llm_units now interval r =
    within interval now r.created_at
      (reservation_value r.status now r.expires_at r.reserved_output_tokens r.actual_output_tokens)

unfoldable pub count_llm_output_usage : QuotaDb → ℕ → ℕ → ℕ → PerWindow
count_llm_output_usage db now member_id club_id = per_window λ interval.
    sum_by
      (λ r.
        if r.member_id == member_id && r.club_id == club_id then llm_units now interval r else 0)
      db.ai_llm_quota_reservations

unfoldable pub count_club_llm_output_usage : QuotaDb → ℕ → ℕ → PerWindow
count_club_llm_output_usage db now club_id = per_window λ interval.
    sum_by (λ r. if r.club_id == club_id then llm_units now interval r else 0)
      db.ai_llm_quota_reservations

pub same_action_refl : (a : QuotaAction) → same_action a a ≡ true
same_action_refl content_create = refl
same_action_refl messages_send = refl
same_action_refl llm_output_tokens = refl
same_action_refl embedding_query = refl
same_action_refl clubs_apply = refl
same_action_refl clubs_create = refl

-- What a row counts for in a window does not grow with time.
pub within_mono :
    (interval now later created_at v : ℕ)
    → now ≤ later
    → within interval later created_at v ≤ within interval now created_at v
within_mono interval now later created_at v h = ground arith

pub llm_units_mono :
    (interval now later : ℕ) (r : LlmReservationRow)
    → now ≤ later
    → llm_units later interval r ≤ llm_units now interval r
llm_units_mono interval now later r h = ground arith

pub eq_of_same_action : (a b : QuotaAction) → same_action a b ≡ true → a ≡ b
eq_of_same_action content_create content_create h = refl
eq_of_same_action messages_send messages_send h = refl
eq_of_same_action llm_output_tokens llm_output_tokens h = refl
eq_of_same_action embedding_query embedding_query h = refl
eq_of_same_action clubs_apply clubs_apply h = refl
eq_of_same_action clubs_create clubs_create h = refl
eq_of_same_action _ _ h = cc
