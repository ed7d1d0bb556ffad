-- ===== src/Memberships/Owner.antt =====
-- src/identity/memberships.ts: whatever is asked for, the owner of a club stays an active club admin.
use clawclub_server.Common.{ℕ, List, [], ◌∷◌, after}
use clawclub_server.Memberships.Tables.{MembershipState, MembershipsDb, MembershipTx}
use clawclub_server.Memberships.Changes.{
  ChangeActor, transition_membership_state, MembershipPatch, update_membership,
  promote_member_to_admin, demote_member_from_admin,
}
use clawclub_server.Memberships.Secured.{
  OwnerSecure, transition-OwnerSecure, promote-OwnerSecure, demote-OwnerSecure, update-OwnerSecure,
}

-- What changes memberships, in one transaction each.
pub data MembershipCall : Type 0 where
  updates : MembershipTx → ChangeActor → (club_id member_id : ℕ) → MembershipPatch → MembershipCall
  transitions :
      MembershipTx
      → ChangeActor
      → (membership_id : ℕ) → (accessible_club_ids : List ℕ) → MembershipState
      → MembershipCall
  promotes demotes : (club_id member_id : ℕ) → MembershipCall

pub membership_step : MembershipsDb → MembershipCall → MembershipsDb
membership_step db (updates tx actor club member patch) =
    after db (update_membership db tx actor club member patch)
membership_step db (transitions tx actor i clubs next) =
    after db (transition_membership_state db tx actor i clubs next)
membership_step db (promotes club member) = after db (promote_member_to_admin db club member)
membership_step db (demotes club member) = after db (demote_member_from_admin db club member)

pub membership_run : MembershipsDb → List MembershipCall → MembershipsDb
membership_run db [] = db
membership_run db (c ∷ cs) = membership_run (membership_step db c) cs

membership_step-OwnerSecure :
    (club_id owner : ℕ) (identity : ℕ → ℕ × ℕ) (db : MembershipsDb) (c : MembershipCall)
    → OwnerSecure club_id owner identity db
    → OwnerSecure club_id owner identity (membership_step db c)
unfolding membership_step
membership_step-OwnerSecure k o i db (updates tx actor club member patch) w =
    update-OwnerSecure k o i db tx actor club member patch w
membership_step-OwnerSecure k o i db (transitions tx actor m clubs next) w =
    transition-OwnerSecure k o i db tx actor m clubs next w
membership_step-OwnerSecure k o i db (promotes club member) w =
    promote-OwnerSecure k o i db club member w
membership_step-OwnerSecure k o i db (demotes club member) w =
    demote-OwnerSecure k o i db club member w

-- If the memberships of a club's owner in the club are active and of a club admin, they stay so,
-- whatever updates, transitions, promotions and demotions anyone asks for, superadmins included. The
-- club and the member of a membership id are fixed by `identity`.
pub membership_run-OwnerSecure :
    (club_id owner : ℕ) (identity : ℕ → ℕ × ℕ) (db : MembershipsDb) (cs : List MembershipCall)
    → OwnerSecure club_id owner identity db
    → OwnerSecure club_id owner identity (membership_run db cs)
unfolding membership_run
membership_run-OwnerSecure k o i db [] w = w
membership_run-OwnerSecure k o i db (c ∷ cs) w =
    membership_run-OwnerSecure k o i (membership_step db c) cs
      (membership_step-OwnerSecure k o i db c w)
