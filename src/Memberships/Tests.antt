-- ===== src/Memberships/Tests.antt =====
-- The owner of a club under attack (src/identity/memberships.ts), on small tables.
use clawclub_server.Common.{ℕ, refl, true, none, some, List, [], ◌∷◌, arith, ◌==◌, if◌then◌else◌}
use clawclub_server.Quotas.Allowance.{MemberRole}
use clawclub_server.Memberships.Tables.{active, banned, MembershipsDb, MembershipRow, MembershipTx}
use clawclub_server.Memberships.Changes.{ChangeActor}
use clawclub_server.Memberships.Secured.{OwnerSecure}
use clawclub_server.Memberships.Owner.{
  MembershipCall, updates, demotes, membership_run, membership_run-OwnerSecure,
}

-- Member 7 owns club 3; member 8 administers it too.
abbrev admin_row : ℕ → ℕ → MembershipRow
admin_row id member_id = record {
  id = id;
  club_id = 3;
  member_id = member_id;
  role = MemberRole.clubadmin;
  status = active;
  joined_at = some 1;
  left_at = none;
  sponsor_of_invitation = none;
}

abbrev club_of_two : MembershipsDb
club_of_two = record {
  club_memberships = admin_row 70 7 ∷ admin_row 80 8 ∷ [];
  club_membership_state_versions = [];
  clubs =
      record { id = 3; owner_member_id = 7; uses_free_allowance = true; member_cap = none } ∷ [];
  club_applicant_blocks = [];
  invite_requests = [];
  club_applications = [];
  member_club_profiles = [];
  notices = [];
}

abbrev who : ℕ → ℕ × ℕ
who id = (3, if id == 70 then 7 else 8)

abbrev tx : MembershipTx
tx = record { now = 9; free_club_member_cap = 50 }

abbrev superadmin : ChangeActor
superadmin = record {
  actor_member_id = 1;
  actor_is_superadmin = true;
  skip_club_admin_check = true;
}

abbrev calls : List MembershipCall
calls =
    updates tx superadmin 3 7 (record { role = none; status = some banned })
    ∷ demotes 3 7
    ∷ updates tx superadmin 3 8 (record { role = none; status = some banned })
    ∷ []

club_of_two-OwnerSecure : OwnerSecure 3 7 who club_of_two
club_of_two-OwnerSecure = record {
  owns = refl;
  rows = (
    record { of_club = refl; of_member = refl; holds = λ c o. (refl, refl) },
    (record { of_club = refl; of_member = refl; holds = λ c o. ground (arith, o) }, tt),
  );
}

membership_run-OwnerSecure_example : OwnerSecure 3 7 who (membership_run club_of_two calls)
membership_run-OwnerSecure_example =
    membership_run-OwnerSecure 3 7 who club_of_two calls club_of_two-OwnerSecure
