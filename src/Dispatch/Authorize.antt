-- ===== src/Dispatch/Authorize.antt =====
-- src/dispatch.ts: the authorization helpers, and the checks before and after the input is parsed.
use clawclub_server.Common.{
  String, ◌≡◌, refl, ◌↔◌, inl, inr, Bool, true, false, ◌||◌, Option, none, some, List, [], ◌∷◌,
  arith, if◌then◌else◌, find, any, Result, ok, err, ◌>>=◌, guard, or_throw, Bool-cases, Text,
  text_eq,
}
use clawclub_server.Errors.{forbidden_scope, forbidden_role, invalid_data}
use clawclub_server.Quotas.Allowance.{MemberRole}
use clawclub_server.Dispatch.Payload.{Payload, read_raw_string, extract_requested_club_id}

pub record MembershipSummary : Type 0 where
  pub club_id : Text
  pub role : MemberRole
  pub is_owner : Bool

-- An authenticated actor; the one global role is superadmin.
pub record Actor : Type 0 where
  pub member_id : Text
  pub memberships : List MembershipSummary
  pub is_superadmin : Bool

pub data ActionAuth : Type 0 where
  no_auth optional_member member clubadmin superadmin : ActionAuth

pub data ScopeStrategy : Type 0 where
  raw_club_id : (key : String) → ScopeStrategy
  raw_member_id : (key : String) → ScopeStrategy
  handler : ScopeStrategy
  no_scope : ScopeStrategy

abbrev pub is_clubadmin_role : MemberRole → Bool
is_clubadmin_role MemberRole.clubadmin = true
is_clubadmin_role MemberRole.member = false

abbrev pub membership_of : Actor → Text → Option MembershipSummary
membership_of actor club_id = find (λ m. text_eq m.club_id club_id) actor.memberships

unfoldable pub require_accessible_club : Actor → Text → Result MembershipSummary
require_accessible_club actor club_id = or_throw (membership_of actor club_id) forbidden_scope

abbrev check_admin : Option MembershipSummary → Result (Unit {0})
check_admin none = err forbidden_scope
check_admin (some m) = guard (is_clubadmin_role m.role) forbidden_role

unfoldable pub require_club_admin : Actor → Text → Result (Unit {0})
require_club_admin actor club_id =
    if actor.is_superadmin then ok tt else check_admin (membership_of actor club_id)

abbrev check_owner : Option MembershipSummary → Result (Unit {0})
check_owner none = err forbidden_scope
check_owner (some m) = guard m.is_owner forbidden_role

unfoldable pub require_club_owner : Actor → Text → Result (Unit {0})
require_club_owner actor club_id =
    if actor.is_superadmin then ok tt else check_owner (membership_of actor club_id)

unfoldable pub require_superadmin : Actor → Result (Unit {0})
require_superadmin actor = guard actor.is_superadmin forbidden_role

abbrev nonempty : List MembershipSummary → Result (List MembershipSummary)
nonempty [] = err forbidden_scope
nonempty (m ∷ ms) = ok (m ∷ ms)

unfoldable pub resolve_scoped_clubs : Actor → Option Text → Result (List MembershipSummary)
unfolding require_accessible_club
resolve_scoped_clubs actor none = nonempty actor.memberships
resolve_scoped_clubs actor (some club_id) = do
  m ← require_accessible_club actor club_id
  ok (m ∷ [])

unfoldable pub has_any_club_admin_role : Actor → Bool
has_any_club_admin_role actor =
    actor.is_superadmin || any (λ m. is_clubadmin_role m.role) actor.memberships

unfoldable pub pre_authorize_role : ActionAuth → Actor → Result (Unit {0})
unfolding require_superadmin has_any_club_admin_role
pre_authorize_role superadmin actor = require_superadmin actor
pre_authorize_role clubadmin actor = guard (has_any_club_admin_role actor) forbidden_role
pre_authorize_role _ actor = ok tt

-- What an action declares, or else what its auth implies.
unfoldable pub scope_declaration_for : ActionAuth → Option ScopeStrategy → ScopeStrategy
scope_declaration_for auth (some scope) = scope
scope_declaration_for clubadmin none = raw_club_id "clubId"
scope_declaration_for auth none = no_scope

-- Club admins need that role in the club, others a membership.
abbrev pub require_club : ActionAuth → Actor → Text → Result (Unit {0})
require_club clubadmin actor club_id = require_club_admin actor club_id
require_club _ actor club_id = require_accessible_club actor club_id >>= λ _. ok tt

abbrev check_raw_club : ActionAuth → Actor → Option Text → Result (Unit {0})
check_raw_club auth actor none = ok tt
check_raw_club auth actor (some club_id) = require_club auth actor club_id

abbrev check_member : Actor → Option Text → Result (Unit {0})
check_member actor none = ok tt
check_member actor (some member_id) =
    guard (text_eq member_id actor.member_id || actor.is_superadmin) forbidden_scope

abbrev raw_scope : ActionAuth → Actor → Payload → ScopeStrategy → Result (Unit {0})
raw_scope auth actor payload (raw_club_id key) =
    check_raw_club auth actor (read_raw_string payload key)
raw_scope auth actor payload (raw_member_id key) = check_member actor (read_raw_string payload key)
raw_scope auth actor payload _ = ok tt

unfoldable pub pre_authorize_raw_scope :
    ActionAuth → Option ScopeStrategy → Payload → Actor → Result (Unit {0})
unfolding scope_declaration_for
pre_authorize_raw_scope auth scope payload actor =
    raw_scope auth actor payload (scope_declaration_for auth scope)

abbrev check_parsed_club : ActionAuth → Actor → Option Text → Result (Unit {0})
check_parsed_club clubadmin actor none = err invalid_data
check_parsed_club auth actor none = ok tt
check_parsed_club auth actor (some club_id) = require_club auth actor club_id

abbrev parsed_scope : ActionAuth → Actor → Payload → ScopeStrategy → Result (Unit {0})
parsed_scope auth actor parsed (raw_club_id key) =
    check_parsed_club auth actor (extract_requested_club_id parsed)
parsed_scope auth actor parsed (raw_member_id key) = check_member actor (read_raw_string parsed key)
parsed_scope auth actor parsed _ = ok tt

unfoldable pub pre_authorize_parsed_scope :
    ActionAuth → Option ScopeStrategy → Payload → Actor → Result (Unit {0})
unfolding scope_declaration_for
pre_authorize_parsed_scope auth scope parsed actor =
    parsed_scope auth actor parsed (scope_declaration_for auth scope)

-- A superadmin, or a club admin of the club.
pub data IsClubAdmin (actor : Actor) (club_id : Text) : Type 0 where
  by_global_role : actor.is_superadmin ≡ true → IsClubAdmin actor club_id
  by_membership :
      (m : MembershipSummary)
      → membership_of actor club_id ≡ some m
      → m.role ≡ MemberRole.clubadmin
      → IsClubAdmin actor club_id

check_admin-eq-ok :
    (m : Option MembershipSummary)
    → check_admin m ≡ ok tt
    → (found : MembershipSummary) × (m ≡ some found) × (found.role ≡ MemberRole.clubadmin)
check_admin-eq-ok none h = cc
check_admin-eq-ok (some m) h = (m, refl, ground arith)

-- The club admin check passes exactly for superadmins and for club admins of the club.
pub require_club_admin-eq-ok_iff :
    (actor : Actor) (club_id : Text)
    → (require_club_admin actor club_id ≡ ok tt) ↔ IsClubAdmin actor club_id
unfolding require_club_admin
require_club_admin-eq-ok_iff actor club_id = (to, from)
  where
    to : require_club_admin actor club_id ≡ ok tt → IsClubAdmin actor club_id
    to h = elim (Bool-cases actor.is_superadmin) [
      | inl global ↦ by_global_role global
      | inr local ↦
          let (m, found, role) = check_admin-eq-ok (membership_of actor club_id) (rw local at h) in
          by_membership m found role
    ]

    from : IsClubAdmin actor club_id → require_club_admin actor club_id ≡ ok tt
    from (by_global_role g) = rw g
    from (by_membership m found role) = ground (arith, found, role)
