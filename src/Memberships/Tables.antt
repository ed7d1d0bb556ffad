-- ===== src/Memberships/Tables.antt =====
-- src/identity/memberships.ts: the tables, with the trigger `sync_club_membership_state` of db/init.sql.
use clawclub_server.Common.{
  String, ℕ, Bool, true, false, not, ◌&&◌, Option, none, some, List, [], ◌∷◌, ltb, ◌==◌,
  if◌then◌else◌, find, any, update_where, Result, ok, ◌>>◌, guard,
}
use clawclub_server.Errors.{version_conflict}
use clawclub_server.Quotas.Allowance.{MemberRole}

pub data MembershipState : Type 0 where
  active cancelled removed banned : MembershipState

-- A row of `club_memberships`.
pub record MembershipRow : Type 0 where
  pub id : ℕ
  pub club_id : ℕ
  pub member_id : ℕ
  pub role : MemberRole
  pub status : MembershipState
  pub joined_at : Option ℕ
  pub left_at : Option ℕ
  pub sponsor_of_invitation : Option ℕ

-- A row of `club_membership_state_versions`.
pub record StateVersionRow : Type 0 where
  pub membership_id : ℕ
  pub status : MembershipState
  pub version_no : ℕ
  pub created_by_member_id : ℕ

pub record ClubRow : Type 0 where
  pub id : ℕ
  pub owner_member_id : ℕ
  pub uses_free_allowance : Bool
  pub member_cap : Option ℕ

pub data BlockKind : Type 0 where
  was_removed was_banned : BlockKind

pub record ApplicantBlock : Type 0 where
  pub club_id : ℕ
  pub member_id : ℕ
  pub block_kind : BlockKind
  pub created_by_member_id : ℕ

pub record InviteRequest : Type 0 where
  pub sponsor_member_id : ℕ
  pub club_id : ℕ
  pub revoked_at : Option ℕ
  pub used_at : Option ℕ

pub record ApplicationRow : Type 0 where
  pub activated_membership_id : Option ℕ
  pub phase : String
  pub decided_at : Option ℕ
  pub decided_by_member_id : Option ℕ

-- The topics of what is appended for members and admins, without the payloads.
pub data Notice : Type 0 where
  membership_activated_activity : (club_id : ℕ) → Notice
  invitation_resolved : (recipient_member_id : ℕ) → Notice
  membership_activated : (recipient_member_id : ℕ) → Notice
  membership_removed membership_banned : (recipient_member_id : ℕ) → Notice

pub record MembershipsDb : Type 0 where
  pub club_memberships : List MembershipRow
  pub club_membership_state_versions : List StateVersionRow
  pub clubs : List ClubRow
  pub club_applicant_blocks : List ApplicantBlock
  pub invite_requests : List InviteRequest
  pub club_applications : List ApplicationRow
  -- the memberships that have a profile version
  pub member_club_profiles : List ℕ
  pub notices : List Notice

-- The time of a transaction, and `getConfig().policy.clubs.freeClubMemberCap`.
pub record MembershipTx : Type 0 where
  pub now : ℕ
  pub free_club_member_cap : ℕ

abbrev pub is_active : MembershipState → Bool
is_active active = true
is_active _ = false

abbrev pub is_terminal : MembershipState → Bool
is_terminal removed = true
is_terminal banned = true
is_terminal _ = false

abbrev pub same_state : MembershipState → MembershipState → Bool
same_state active active = true
same_state cancelled cancelled = true
same_state removed removed = true
same_state banned banned = true
same_state _ _ = false

abbrev pub is_admin_role : MemberRole → Bool
is_admin_role MemberRole.clubadmin = true
is_admin_role MemberRole.member = false

abbrev pub is_none : {A : Type 0} → Option A → Bool
is_none none = true
is_none (some a) = false

-- The row of the view `current_club_memberships` that `limit 1` takes.
unfoldable pub current_membership : MembershipsDb → ℕ → ℕ → Option MembershipRow
current_membership db club_id member_id =
    find (λ m. m.club_id == club_id && m.member_id == member_id) db.club_memberships

abbrev pub later_version : ℕ → ℕ → ℕ
later_version a b = if ltb a b then b else a

-- `state_version_no` of the view; a membership without versions has none, which counts as 0.
unfoldable pub state_version_no : List StateVersionRow → ℕ → ℕ
state_version_no [] membership_id = 0
state_version_no (v ∷ vs) membership_id =
    if v.membership_id == membership_id
    then later_version v.version_no (state_version_no vs membership_id)
    else state_version_no vs membership_id

abbrev pub or_now : Option ℕ → ℕ → Option ℕ
or_now none now = some now
or_now (some t) now = some t

-- The update of the trigger on a new state version.
abbrev pub sync_row : ℕ → MembershipState → MembershipRow → MembershipRow
sync_row now status m = record m {
  status = status;
  joined_at = if is_active status then or_now m.joined_at now else m.joined_at;
  left_at = if is_terminal status then or_now m.left_at now else none;
}

-- A new state version, unique on membership and number, and the trigger.
unfoldable pub insert_state_version :
    MembershipsDb
    → MembershipTx
    → (membership_id : ℕ) → MembershipState
    → (version_no actor_member_id : ℕ) → Result MembershipsDb
insert_state_version db tx membership_id status version_no actor_member_id = do
  guard
      (not (
        any (λ v. v.membership_id == membership_id && v.version_no == version_no)
          db.club_membership_state_versions))
      version_conflict
  ok (record db {
    club_membership_state_versions =
        record {
          membership_id = membership_id;
          status = status;
          version_no = version_no;
          created_by_member_id = actor_member_id;
        }
        ∷ db.club_membership_state_versions;
    club_memberships =
        update_where (λ r. r.id == membership_id) (sync_row tx.now status) db.club_memberships;
  })
