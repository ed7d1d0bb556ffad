-- ===== src/Memberships/Secured.antt =====
-- src/identity/memberships.ts: each change keeps the owner of a club an active club admin.
use clawclub_server.Common.{
  find-holds, ℕ, ◌≡◌, refl, sym, ap, ◌∙◌, inl, inr, Bool, true, false, not, ◌||◌, Option, none,
  some, List, arith, ◌==◌, All, Result, ok, ◌>>=◌, after, Bool-cases, ==_iff, All-find,
  Result-cases,
}
use clawclub_server.Quotas.Allowance.{MemberRole}
use clawclub_server.Memberships.Tables.{
  MembershipState, active, MembershipRow, MembershipsDb, MembershipTx, is_active, is_admin_role,
  same_state, current_membership, sync_row,
}
use clawclub_server.Memberships.Rules.{assert_admin_status_change_allowed, is_club_owner}
use clawclub_server.Memberships.Changes.{
  ChangeActor, may_administer, for_admin, same_role, active_membership, set_role,
  sync_membership_role, change_status, application_effects, apply_role_change, apply_status_change,
  transition_membership_state, MembershipPatch, update_membership, promote_member_to_admin,
  demote_member_from_admin,
}
use clawclub_server.Memberships.Effects.{
  SameMembers, apply_status_change-eq-ok, All-update_where, allowed-eq-active, is_admin_role-eq,
  application_effects-SameMembers,
}

-- `identity` gives the club and the member of a membership id, which never change.
module _ (club_id owner : ℕ) (identity : ℕ → ℕ × ℕ) where
  -- A membership of the owner in the club is active and of a club admin.
  pub record Secured (r : MembershipRow) : Type 0 where
    pub of_club : r.club_id ≡ (identity r.id).0
    pub of_member : r.member_id ≡ (identity r.id).1
    pub holds :
        r.club_id ≡ club_id
        → r.member_id ≡ owner
        → (r.status ≡ active) × (r.role ≡ MemberRole.clubadmin)

  pub record OwnerSecure (db : MembershipsDb) : Type 0 where
    pub owns : is_club_owner db club_id owner ≡ true
    pub rows : All Secured db.club_memberships

  sync_row-Secured :
      (db : MembershipsDb) (m : MembershipRow) (now : ℕ) (next : MembershipState) (actor : ℕ)
      (super : Bool)
      → is_club_owner db club_id owner ≡ true
      → Secured m
      → assert_admin_status_change_allowed db m actor super next ≡ ok tt
      → (r : MembershipRow) → Secured r
      → (r.id == m.id) ≡ true
      → Secured (sync_row now next r)
  unfolding assert_admin_status_change_allowed
  sync_row-Secured db m now next actor super owns sm allowed r sr same =
      let id_eq = (==_iff r.id m.id).0 same in
      record {
        of_club = sr.of_club;
        of_member = sr.of_member;
        holds = λ c o.
            let club = sm.of_club ∙ ap (λ i. (identity i).0) (sym id_eq) ∙ sym sr.of_club ∙ c in
            let who = sm.of_member ∙ ap (λ i. (identity i).1) (sym id_eq) ∙ sym sr.of_member ∙ o in
            (
              allowed-eq-active db m next actor super (rw (club, who) owns) allowed,
              (sr.holds c o).1,
            );
      }

  apply_status_change-OwnerSecure :
      (db db' : MembershipsDb) (tx : MembershipTx) (actor : ChangeActor) (m : MembershipRow)
      (next : MembershipState)
      → OwnerSecure db
      → Secured m
      → apply_status_change db tx actor m next ≡ ok db'
      → OwnerSecure db'
  apply_status_change-OwnerSecure db db' tx actor m next w sm h =
      let (allowed, rows, clubs) = apply_status_change-eq-ok db db' tx actor m next h in
      record {
        owns = rw clubs (w.owns);
        rows = rw rows (
            All-update_where Secured (λ r. r.id == m.id) (sync_row tx.now next) db.club_memberships
              (λ r sr same.
                sync_row-Secured db m tx.now next actor.actor_member_id actor.actor_is_superadmin
                  w.owns sm allowed r sr same)
              w.rows);
      }

  for_admin-OwnerSecure :
      (db : MembershipsDb) (actor : ChangeActor) (found : Option MembershipRow)
      (change : MembershipRow → Result (Option Bool × MembershipsDb))
      → OwnerSecure db
      → ((m : MembershipRow) → found ≡ some m → OwnerSecure (after db (change m)))
      → OwnerSecure (after db (for_admin db actor found change))
  for_admin-OwnerSecure db actor none change w h = w
  for_admin-OwnerSecure db actor (some m) change w h =
      elim (Bool-cases (may_administer db actor m.club_id)) [
        | inl may ↦ rw may (h m refl)
        | inr may_not ↦ rw may_not w
      ]

  pub transition-OwnerSecure :
      (db : MembershipsDb) (tx : MembershipTx) (actor : ChangeActor) (membership_id : ℕ)
      (clubs : List ℕ) (next : MembershipState)
      → OwnerSecure db
      → OwnerSecure (after db (transition_membership_state db tx actor membership_id clubs next))
  unfolding transition_membership_state
  transition-OwnerSecure db tx actor membership_id clubs next w =
      for_admin-OwnerSecure db actor _ _ w (λ m n.
        elim (Result-cases (apply_status_change db tx actor m next)) [
          | inl (db', r) ↦ rw r (
              apply_status_change-OwnerSecure db db' tx actor m next w
                (All-find Secured _ db.club_memberships w.rows n) r)
          | inr (e, r) ↦ rw r w
        ])

  sync_membership_role-OwnerSecure :
      (db : MembershipsDb) (m : MembershipRow) (role : MemberRole)
      → OwnerSecure db
      → Secured m
      → is_admin_role role || not (is_club_owner db m.club_id m.member_id) ≡ true
      → OwnerSecure (sync_membership_role db m.id role)
  unfolding sync_membership_role
  sync_membership_role-OwnerSecure db m role w sm allowed = record {
    owns = w.owns;
    rows =
        All-update_where Secured (λ r. r.id == m.id) (λ r. record r { role = role })
          db.club_memberships
          (λ r sr same.
            let id_eq = (==_iff r.id m.id).0 same in
            record {
              of_club = sr.of_club;
              of_member = sr.of_member;
              holds = λ c o.
                  let club =
                    sm.of_club ∙ ap (λ i. (identity i).0) (sym id_eq) ∙ sym sr.of_club ∙ c in
                  let who =
                    sm.of_member ∙ ap (λ i. (identity i).1) (sym id_eq) ∙ sym sr.of_member ∙ o in
                  ((sr.holds c o).0, is_admin_role-eq role (rw (club, who, w.owns) at allowed));
            })
          w.rows;
  }

  set_role-OwnerSecure :
      (db : MembershipsDb) (role : MemberRole) (found : Option MembershipRow)
      → OwnerSecure db
      → ((m : MembershipRow)
          → found ≡ some m
          → Secured m × (is_admin_role role || not (is_club_owner db m.club_id m.member_id) ≡ true))
      → OwnerSecure (set_role db role found).1
  set_role-OwnerSecure db role none w h = w
  set_role-OwnerSecure db role (some m) w h = elim (Bool-cases (same_role role m.role)) [
    | inl same ↦ rw same w
    | inr other ↦ rw other (sync_membership_role-OwnerSecure db m role w (h m refl).0 (h m refl).1)
  ]

  pub promote-OwnerSecure :
      (db : MembershipsDb) (club member : ℕ)
      → OwnerSecure db
      → OwnerSecure (after db (promote_member_to_admin db club member))
  unfolding promote_member_to_admin
  promote-OwnerSecure db club member w =
      set_role-OwnerSecure db MemberRole.clubadmin (active_membership db club member) w
        (λ m n. (All-find Secured _ db.club_memberships w.rows n, refl))

  pub demote-OwnerSecure :
      (db : MembershipsDb) (club member : ℕ)
      → OwnerSecure db
      → OwnerSecure (after db (demote_member_from_admin db club member))
  unfolding demote_member_from_admin
  demote-OwnerSecure db club member w = elim (Bool-cases (is_club_owner db club member)) [
    | inl is_owner ↦ rw is_owner w
    | inr other ↦ rw other (
        set_role-OwnerSecure db MemberRole.member (active_membership db club member) w (λ m n.
          let here = find-holds _ db.club_memberships m n in
          let c : m.club_id ≡ club = ground (arith, here) in
          let o : m.member_id ≡ member = ground (arith, here) in
          (All-find Secured _ db.club_memberships w.rows n, rw (c, o, other) refl)))
  ]

  SameMembers-OwnerSecure : (a b : MembershipsDb) → SameMembers a b → OwnerSecure a → OwnerSecure b
  unfolding SameMembers
  SameMembers-OwnerSecure a b (rows, clubs) w = record {
    owns = rw clubs w.owns;
    rows = rw rows w.rows;
  }

  apply_role_change-OwnerSecure :
      (db base : MembershipsDb) (m : MembershipRow) (role : Option MemberRole) (changed : Bool)
      (status : MembershipState)
      → OwnerSecure base
      → OwnerSecure db
      → Secured m
      → OwnerSecure (after base (apply_role_change m role (changed, status, db)))
  apply_role_change-OwnerSecure db base m none changed status b w sm = w
  apply_role_change-OwnerSecure db base m (some role) changed status b w sm =
      elim (Bool-cases (same_role role m.role)) [
        | inl same ↦ rw same w
        | inr other ↦ elim (Bool-cases (is_active status)) [
          | inr f ↦ rw (other, f) b
          | inl t ↦
              elim (Bool-cases
                (is_admin_role role || not (is_club_owner db m.club_id m.member_id))) [
                  | inr f ↦ rw (other, t, f) b
                  | inl allowed ↦
                      rw (other, t, allowed)
                        (sync_membership_role-OwnerSecure db m role w sm allowed)
                ]
        ]
      ]

  pub update-OwnerSecure :
      (db : MembershipsDb) (tx : MembershipTx) (actor : ChangeActor) (club member : ℕ)
      (patch : MembershipPatch)
      → OwnerSecure db
      → OwnerSecure (after db (update_membership db tx actor club member patch))
  unfolding update_membership current_membership
  update-OwnerSecure db tx actor club member patch w =
      for_admin-OwnerSecure db actor _ _ w
        (λ m n. go m (All-find Secured _ db.club_memberships w.rows n) patch.status)
    where
      go :
          (m : MembershipRow)
          → Secured m
          → (status : Option MembershipState)
          → OwnerSecure
              (after db (change_status db tx actor m status >>= apply_role_change m patch.role))
      go m sm none = apply_role_change-OwnerSecure db db m patch.role false m.status w w sm
      go m sm (some next) = elim (Bool-cases (same_state next m.status)) [
        | inl same ↦
            rw same (apply_role_change-OwnerSecure db db m patch.role false m.status w w sm)
        | inr other ↦ elim (Result-cases (apply_status_change db tx actor m next)) [
          | inr (e, r) ↦ rw (other, r) w
          | inl (db', r) ↦
              rw (other, r)
                (apply_role_change-OwnerSecure
                  (application_effects db' tx.now m next actor.actor_member_id) db m patch.role true
                  next w
                  (SameMembers-OwnerSecure db' _
                    (application_effects-SameMembers db' tx.now m next actor.actor_member_id)
                    (apply_status_change-OwnerSecure db db' tx actor m next w sm r))
                  sm)
        ]
      ]
