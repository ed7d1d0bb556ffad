-- ===== src/Memberships/Rules.antt =====
-- src/identity/memberships.ts: the checks of a membership change, and its effects on other tables.
use clawclub_server.Common.{
  String, ℕ, ◌+◌, Bool, true, false, not, ◌&&◌, ◌||◌, Option, none, some, List, ◌∷◌, leb, ◌==◌,
  if◌then◌else◌, count_by, find, any, filter, update_where, Result, ok, ◌>>=◌, ◌>>◌, guard,
  or_throw,
}
use clawclub_server.Errors.{
  invalid_state_transition, forbidden_role, member_cap_reached, club_not_found, membership_exists,
}
use clawclub_server.Memberships.Tables.{
  MembershipState, active, cancelled, removed, banned, MembershipRow, ClubRow, BlockKind,
  was_removed, was_banned, ApplicantBlock, ApplicationRow, Notice, membership_activated_activity,
  invitation_resolved, membership_activated, membership_removed, membership_banned, MembershipsDb,
  MembershipTx, is_active, is_terminal, is_admin_role, is_none, or_now, same_state,
}

-- ADMIN_VALID_TRANSITIONS
unfoldable pub is_valid_transition : MembershipState → MembershipState → Bool
is_valid_transition active cancelled = true
is_valid_transition active removed = true
is_valid_transition active banned = true
is_valid_transition cancelled removed = true
is_valid_transition cancelled banned = true
is_valid_transition _ _ = false

unfoldable pub assert_admin_transition_allowed :
    MembershipState → MembershipState → (actor_is_superadmin : Bool) → Result (Unit {0})
assert_admin_transition_allowed current next actor_is_superadmin =
    if actor_is_superadmin && is_active next && is_terminal current
    then ok tt
    else guard (is_valid_transition current next) invalid_state_transition

abbrev pub is_club_owner : MembershipsDb → ℕ → ℕ → Bool
is_club_owner db club_id member_id = elim (find (λ c. c.id == club_id) db.clubs) [
  | none ↦ false
  | some c ↦ c.owner_member_id == member_id
]

-- Nobody takes an own membership away, and nobody the owner's.
unfoldable pub assert_admin_status_change_allowed :
    MembershipsDb
    → MembershipRow
    → (actor_member_id : ℕ) → (actor_is_superadmin : Bool) → MembershipState
    → Result (Unit {0})
unfolding assert_admin_transition_allowed
assert_admin_status_change_allowed db m actor_member_id actor_is_superadmin next = do
  guard
      (not
        (m.member_id == actor_member_id && not (is_active next) && not (same_state next m.status)))
      forbidden_role
  guard (is_active next || not (is_club_owner db m.club_id m.member_id)) forbidden_role
  assert_admin_transition_allowed m.status next actor_is_superadmin

unfoldable pub is_club_admin : MembershipsDb → ℕ → ℕ → Bool
is_club_admin db member_id club_id =
    any (λ m. m.club_id == club_id && m.member_id == member_id && is_admin_role m.role)
      db.club_memberships

abbrev pub is_active_in : ℕ → MembershipRow → Bool
is_active_in club_id m = m.club_id == club_id && is_active m.status && is_none m.left_at

unfoldable pub active_count : List MembershipRow → ℕ → ℕ
active_count rows club_id = count_by (is_active_in club_id) rows

abbrev pub effective_cap : MembershipTx → ClubRow → Option ℕ
effective_cap tx c = if c.uses_free_allowance then some tx.free_club_member_cap else c.member_cap

abbrev pub check_cap : ℕ → Option ℕ → Result (Unit {0})
check_cap wanted none = ok tt
check_cap wanted (some cap) = guard (leb wanted cap) member_cap_reached

-- With one slot to reserve.
unfoldable pub assert_club_has_capacity : MembershipsDb → MembershipTx → ℕ → Result (Unit {0})
unfolding active_count
assert_club_has_capacity db tx club_id = do
  c ← or_throw (find (λ c. c.id == club_id) db.clubs) club_not_found
  check_cap (active_count db.club_memberships club_id + 1) (effective_cap tx c)

unfoldable pub assert_no_live_membership : MembershipsDb → ℕ → ℕ → Result (Unit {0})
assert_no_live_membership db club_id member_id =
    guard
      (not (
        any (λ m. m.club_id == club_id && m.member_id == member_id && is_none m.left_at)
          db.club_memberships))
      membership_exists

abbrev pub remove_where : {A : Type 0} → (A → Bool) → List A → List A
remove_where p xs = filter (λ x. not (p x)) xs

unfoldable pub clear_applicant_block : MembershipsDb → MembershipRow → MembershipsDb
clear_applicant_block db m = record db {
  club_applicant_blocks =
      remove_where (λ b. b.club_id == m.club_id && b.member_id == m.member_id)
        db.club_applicant_blocks;
}

abbrev pub same_kind : BlockKind → BlockKind → Bool
same_kind was_removed was_removed = true
same_kind was_banned was_banned = true
same_kind _ _ = false

-- The upsert on club, member and kind (src/application-policy.ts).
unfoldable pub write_applicant_block : MembershipsDb → MembershipRow → BlockKind → ℕ → MembershipsDb
write_applicant_block db m kind actor_member_id =
    let same = λ (b : ApplicantBlock).
      b.club_id == m.club_id && b.member_id == m.member_id && same_kind b.block_kind kind in
    record db {
      club_applicant_blocks =
          if any same db.club_applicant_blocks
          then update_where same (λ b. record b { created_by_member_id = actor_member_id })
              db.club_applicant_blocks
          else record {
            club_id = m.club_id;
            member_id = m.member_id;
            block_kind = kind;
            created_by_member_id = actor_member_id;
          }
            ∷ db.club_applicant_blocks;
    }

unfoldable pub revoke_open_invites_from_sponsor_in_club :
    MembershipsDb → ℕ → MembershipRow → MembershipsDb
revoke_open_invites_from_sponsor_in_club db now m = record db {
  invite_requests =
      update_where
        (λ i.
          i.sponsor_member_id == m.member_id
          && i.club_id == m.club_id
          && is_none i.revoked_at
          && is_none i.used_at)
        (λ i. record i { revoked_at = some now }) db.invite_requests;
}

abbrev pub phase_name : BlockKind → String
phase_name was_removed = "removed"
phase_name was_banned = "banned"

abbrev pub left_notice : BlockKind → ℕ → Notice
left_notice was_removed member_id = membership_removed member_id
left_notice was_banned member_id = membership_banned member_id

abbrev activated_by : ℕ → ApplicationRow → Bool
activated_by membership_id a = elim a.activated_membership_id [
  | none ↦ false
  | some i ↦ i == membership_id
]

unfoldable pub apply_membership_application_effects :
    MembershipsDb → ℕ → MembershipRow → BlockKind → ℕ → MembershipsDb
apply_membership_application_effects db now m kind actor_member_id = record db {
  club_applications =
      update_where (activated_by m.id)
        (λ a. record a {
          phase = phase_name kind;
          decided_at = or_now a.decided_at now;
          decided_by_member_id = or_now a.decided_by_member_id actor_member_id;
        })
        db.club_applications;
  notices = left_notice kind m.member_id ∷ db.notices;
}

abbrev pub resolved_notice : Option ℕ → List Notice → List Notice
resolved_notice none ns = ns
resolved_notice (some sponsor) ns = invitation_resolved sponsor ∷ ns

unfoldable pub apply_activation_fanout :
    MembershipsDb → MembershipRow → (was_first : Bool) → MembershipsDb
apply_activation_fanout db m was_first =
    let ns = membership_activated_activity m.club_id ∷ db.notices in
    record db {
      notices =
          if was_first
          then membership_activated m.member_id ∷ resolved_notice m.sponsor_of_invitation ns
          else ns;
    }

unfoldable pub ensure_profile_version_for_active_membership :
    MembershipsDb → MembershipRow → MembershipsDb
ensure_profile_version_for_active_membership db m =
    if any (λ i. i == m.id) db.member_club_profiles
    then db
    else record db { member_club_profiles = m.id ∷ db.member_club_profiles }
