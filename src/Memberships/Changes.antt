-- ===== src/Memberships/Changes.antt =====
-- src/identity/memberships.ts: the transactions that change memberships.
use clawclub_server.Common.{
  ℕ, ◌+◌, Bool, true, false, not, ◌&&◌, ◌||◌, Option, none, some, List, ◌==◌, if◌then◌else◌, find,
  any, update_where, Result, ok, err, ◌>>=◌, ◌>>◌, guard,
}
use clawclub_server.Errors.{invalid_state, forbidden_role, member_already_active}
use clawclub_server.Quotas.Allowance.{MemberRole}
use clawclub_server.Memberships.Tables.{
  MembershipState, active, cancelled, removed, banned, MembershipRow, BlockKind, was_removed,
  was_banned, MembershipsDb, MembershipTx, is_active, is_terminal, is_admin_role, is_none,
  same_state, current_membership, state_version_no, insert_state_version,
}
use clawclub_server.Memberships.Rules.{
  assert_admin_status_change_allowed, is_club_owner, is_club_admin, assert_club_has_capacity,
  clear_applicant_block, write_applicant_block, revoke_open_invites_from_sponsor_in_club,
  apply_membership_application_effects, apply_activation_fanout,
  ensure_profile_version_for_active_membership,
}

-- Who asks for a change.
pub record ChangeActor : Type 0 where
  pub actor_member_id : ℕ
  pub actor_is_superadmin : Bool
  pub skip_club_admin_check : Bool

abbrev pub may_administer : MembershipsDb → ChangeActor → ℕ → Bool
may_administer db actor club_id =
    actor.skip_club_admin_check || is_club_admin db actor.actor_member_id club_id

-- What an activation brings about; `m` is the membership before it.
unfoldable pub activation_effects : MembershipsDb → MembershipRow → MembershipsDb
activation_effects db m =
    let fanned = apply_activation_fanout db m (is_none m.joined_at) in
    let profiled = ensure_profile_version_for_active_membership fanned m in
    if is_terminal m.status then clear_applicant_block profiled m else profiled

abbrev pub leaving_effects : MembershipsDb → ℕ → MembershipRow → BlockKind → ℕ → MembershipsDb
leaving_effects db now m kind actor_member_id =
    revoke_open_invites_from_sponsor_in_club (write_applicant_block db m kind actor_member_id) now m

unfoldable pub status_effects :
    MembershipsDb → ℕ → MembershipRow → MembershipState → ℕ → MembershipsDb
status_effects db now m active actor_member_id = activation_effects db m
status_effects db now m cancelled actor_member_id =
    revoke_open_invites_from_sponsor_in_club db now m
status_effects db now m removed actor_member_id =
    leaving_effects db now m was_removed actor_member_id
status_effects db now m banned actor_member_id = leaving_effects db now m was_banned actor_member_id

-- `updateMembership` also settles the application that led to the membership.
abbrev pub application_effects :
    MembershipsDb → ℕ → MembershipRow → MembershipState → ℕ → MembershipsDb
application_effects db now m removed actor =
    apply_membership_application_effects db now m was_removed actor
application_effects db now m banned actor =
    apply_membership_application_effects db now m was_banned actor
application_effects db now m _ actor = db

-- The checks, the new state version and its effects, which both handlers share.
unfoldable pub apply_status_change :
    MembershipsDb
    → MembershipTx
    → ChangeActor
    → MembershipRow
    → MembershipState
    → Result MembershipsDb
apply_status_change db tx actor m next = do
  assert_admin_status_change_allowed db m actor.actor_member_id actor.actor_is_superadmin next
  if is_active next then assert_club_has_capacity db tx m.club_id else ok tt
  db' ←
      insert_state_version db tx m.id next
        (state_version_no db.club_membership_state_versions m.id + 1) actor.actor_member_id
  ok (status_effects db' tx.now m next actor.actor_member_id)

-- A change of the membership that was found, if the actor may change it; `none` is the code's null.
abbrev pub for_admin :
    MembershipsDb
    → ChangeActor
    → Option MembershipRow
    → (MembershipRow → Result (Option Bool × MembershipsDb))
    → Result (Option Bool × MembershipsDb)
for_admin db actor none change = ok (none, db)
for_admin db actor (some m) change =
    if may_administer db actor m.club_id then change m else ok (none, db)

unfoldable pub transition_membership_state :
    MembershipsDb
    → MembershipTx
    → ChangeActor
    → (membership_id : ℕ) (accessible_club_ids : List ℕ) → MembershipState
    → Result (Option Bool × MembershipsDb)
transition_membership_state db tx actor membership_id accessible_club_ids next =
    for_admin db actor
      (find (λ m. m.id == membership_id && any (λ c. c == m.club_id) accessible_club_ids)
        db.club_memberships)
      (λ m. apply_status_change db tx actor m next >>= λ db'. ok (some true, db'))

pub record MembershipPatch : Type 0 where
  pub role : Option MemberRole
  pub status : Option MembershipState

abbrev pub same_role : MemberRole → MemberRole → Bool
same_role MemberRole.member MemberRole.member = true
same_role MemberRole.clubadmin MemberRole.clubadmin = true
same_role _ _ = false

unfoldable pub sync_membership_role : MembershipsDb → ℕ → MemberRole → MembershipsDb
sync_membership_role db membership_id role = record db {
  club_memberships =
      update_where (λ m. m.id == membership_id) (λ m. record m { role = role }) db.club_memberships;
}

-- What became of the status: whether it changed, what it is, and the tables.
abbrev pub change_status :
    MembershipsDb
    → MembershipTx
    → ChangeActor
    → MembershipRow
    → Option MembershipState
    → Result (Bool × MembershipState × MembershipsDb)
change_status db tx actor m none = ok (false, m.status, db)
change_status db tx actor m (some next) =
    if same_state next m.status
    then ok (false, m.status, db)
    else (apply_status_change db tx actor m next >>= λ db'.
        ok (true, next, application_effects db' tx.now m next actor.actor_member_id))

abbrev pub apply_role_change :
    MembershipRow
    → Option MemberRole
    → Bool × MembershipState × MembershipsDb
    → Result (Option Bool × MembershipsDb)
apply_role_change m none (changed, status, db) = ok (some changed, db)
apply_role_change m (some role) (changed, status, db) =
    if same_role role m.role then ok (some changed, db) else do
      guard (is_active status) invalid_state
      guard (is_admin_role role || not (is_club_owner db m.club_id m.member_id)) forbidden_role
      ok (some true, sync_membership_role db m.id role)

unfoldable pub update_membership :
    MembershipsDb
    → MembershipTx
    → ChangeActor
    → (club_id member_id : ℕ) → MembershipPatch
    → Result (Option Bool × MembershipsDb)
update_membership db tx actor club_id member_id patch =
    for_admin db actor (current_membership db club_id member_id)
      (λ m. change_status db tx actor m patch.status >>= apply_role_change m patch.role)

abbrev pub active_membership : MembershipsDb → ℕ → ℕ → Option MembershipRow
active_membership db club_id member_id =
    find (λ m. m.club_id == club_id && m.member_id == member_id && is_active m.status)
      db.club_memberships

abbrev pub set_role :
    MembershipsDb → MemberRole → Option MembershipRow → Option Bool × MembershipsDb
set_role db role none = (none, db)
set_role db role (some m) =
    if same_role role m.role
    then (some false, db)
    else (some true, sync_membership_role db m.id role)

unfoldable pub promote_member_to_admin :
    MembershipsDb → (club_id member_id : ℕ) → Result (Option Bool × MembershipsDb)
promote_member_to_admin db club_id member_id =
    ok (set_role db MemberRole.clubadmin (active_membership db club_id member_id))

unfoldable pub demote_member_from_admin :
    MembershipsDb → (club_id member_id : ℕ) → Result (Option Bool × MembershipsDb)
demote_member_from_admin db club_id member_id = do
  guard (not (is_club_owner db club_id member_id)) forbidden_role
  ok (set_role db MemberRole.member (active_membership db club_id member_id))

abbrev pub reactivate_found :
    MembershipsDb
    → MembershipTx
    → ℕ
    → MembershipRow
    → MembershipState
    → Result (Option Bool × MembershipsDb)
reactivate_found db tx actor_member_id m active = err member_already_active
reactivate_found db tx actor_member_id m cancelled = do
  assert_club_has_capacity db tx m.club_id
  db' ←
      insert_state_version db tx m.id active
        (state_version_no db.club_membership_state_versions m.id + 1) actor_member_id
  ok (
    some true,
    ensure_profile_version_for_active_membership
        (apply_activation_fanout db' m (is_none m.joined_at)) m,
  )
reactivate_found db tx actor_member_id m _ = ok (none, db)

unfoldable pub reactivate_cancelled_membership_in_transaction :
    MembershipsDb
    → MembershipTx
    → (actor_member_id club_id member_id : ℕ) → Result (Option Bool × MembershipsDb)
reactivate_cancelled_membership_in_transaction db tx actor_member_id club_id member_id =
    elim (current_membership db club_id member_id) [
      | none ↦ ok (none, db)
      | some m ↦ reactivate_found db tx actor_member_id m m.status
    ]
