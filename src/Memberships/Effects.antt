-- ===== src/Memberships/Effects.antt =====
-- src/identity/memberships.ts: what a change of status that passed did, and what its effects leave alone.
use clawclub_server.Common.{
  ℕ, ◌+◌, ◌≡◌, refl, sym, ap, ◌∙◌, inl, inr, Bool, true, false, not, ◌&&◌, ◌||◌, some, List, [],
  ◌∷◌, ◌==◌, if◌then◌else◌, get_or, any, update_where, All, ok, err, guard, Bool-cases, >>=-eq-ok,
}
use clawclub_server.Errors.{forbidden_role}
use clawclub_server.Quotas.Allowance.{MemberRole}
use clawclub_server.Memberships.Tables.{
  MembershipState, active, cancelled, removed, banned, MembershipRow, MembershipsDb, MembershipTx,
  is_active, is_terminal, is_admin_role, is_none, same_state, state_version_no,
  insert_state_version, sync_row,
}
use clawclub_server.Memberships.Rules.{
  assert_admin_status_change_allowed, is_club_owner, assert_club_has_capacity,
  clear_applicant_block, write_applicant_block, revoke_open_invites_from_sponsor_in_club,
  apply_membership_application_effects, apply_activation_fanout,
  ensure_profile_version_for_active_membership,
}
use clawclub_server.Memberships.Changes.{
  ChangeActor, application_effects, activation_effects, status_effects, apply_status_change,
}

some_injective : {A : Type 0} {a b : A} → some a ≡ some b → a ≡ b
some_injective {A} {a} h = ap (λ o. get_or o a) h

ok_injective : {A : Type 0} {a b : A} → ok a ≡ ok b → a ≡ b
ok_injective {A} {a} h = ap (λ r. elim r [ ok x ↦ x | err e ↦ a ]) h

-- The effects of a change on other tables leave the memberships and the clubs as they are.
unfoldable pub SameMembers : MembershipsDb → MembershipsDb → Type 0
SameMembers a b = (b.club_memberships ≡ a.club_memberships) × (b.clubs ≡ a.clubs)

ensure_profile-SameMembers :
    (db : MembershipsDb) (m : MembershipRow)
    → SameMembers db (ensure_profile_version_for_active_membership db m)
unfolding SameMembers ensure_profile_version_for_active_membership
ensure_profile-SameMembers db m = elim (Bool-cases (any (λ i. i == m.id) db.member_club_profiles)) [
  | inl t ↦ rw t (refl, refl)
  | inr f ↦ rw f (refl, refl)
]

status_effects-SameMembers :
    (db : MembershipsDb) (now : ℕ) (m : MembershipRow) (next : MembershipState) (actor : ℕ)
    → SameMembers db (status_effects db now m next actor)
unfolding SameMembers status_effects activation_effects clear_applicant_block write_applicant_block
    revoke_open_invites_from_sponsor_in_club apply_activation_fanout
status_effects-SameMembers db now m active actor =
    let fanned = apply_activation_fanout db m (is_none m.joined_at) in
    let same = ensure_profile-SameMembers fanned m in
    elim (Bool-cases (is_terminal m.status)) [ inl t ↦ rw t same | inr f ↦ rw f same ]
status_effects-SameMembers db now m cancelled actor = (refl, refl)
status_effects-SameMembers db now m removed actor = (refl, refl)
status_effects-SameMembers db now m banned actor = (refl, refl)

insert_state_version-eq-ok :
    (db db' : MembershipsDb) (tx : MembershipTx) (i version actor : ℕ) (next : MembershipState)
    → insert_state_version db tx i next version actor ≡ ok db'
    → (db'.club_memberships
        ≡ update_where (λ r. r.id == i) (sync_row tx.now next) db.club_memberships)
      × (db'.clubs ≡ db.clubs)
unfolding insert_state_version
insert_state_version-eq-ok db db' tx i version actor next h =
    elim (Bool-cases (
      any (λ v. v.membership_id == i && v.version_no == version)
        db.club_membership_state_versions)) [
          | inl taken ↦ cc (rw taken at h)
          | inr free ↦
              let same = ok_injective (rw free at h) in
              (sym (ap (λ d. d.club_memberships) same), sym (ap (λ d. d.clubs) same))
        ]

-- What a change of status that passed did to the memberships.
pub apply_status_change-eq-ok :
    (db db' : MembershipsDb) (tx : MembershipTx) (actor : ChangeActor) (m : MembershipRow)
    (next : MembershipState)
    → apply_status_change db tx actor m next ≡ ok db'
    → (assert_admin_status_change_allowed db m actor.actor_member_id actor.actor_is_superadmin next
        ≡ ok tt)
      × (db'.club_memberships
          ≡ update_where (λ r. r.id == m.id) (sync_row tx.now next) db.club_memberships)
      × (db'.clubs ≡ db.clubs)
unfolding apply_status_change SameMembers
apply_status_change-eq-ok db db' tx actor m next h =
    let (_, allowed, h2) =
      >>=-eq-ok
        (assert_admin_status_change_allowed db m actor.actor_member_id actor.actor_is_superadmin
          next)
        _ h in
    let (_, room, h3) =
      >>=-eq-ok (if is_active next then assert_club_has_capacity db tx m.club_id else ok tt) _ h2 in
    let (db1, inserted, h4) =
      >>=-eq-ok
        (insert_state_version db tx m.id next
          (state_version_no db.club_membership_state_versions m.id + 1) actor.actor_member_id)
        _ h3 in
    let same = status_effects-SameMembers db1 tx.now m next actor.actor_member_id in
    let (rows, clubs) =
      insert_state_version-eq-ok db db1 tx m.id _ actor.actor_member_id next inserted in
    let last = ok_injective h4 in
    (
      allowed,
      sym (ap (λ d. d.club_memberships) last) ∙ same.0 ∙ rows,
      sym (ap (λ d. d.clubs) last) ∙ same.1 ∙ clubs,
    )

pub All-update_where :
    {A : Type 0} (P : A → Type 0) (p : A → Bool) (f : A → A) (xs : List A)
    → ((x : A) → P x → p x ≡ true → P (f x))
    → All P xs
    → All P (update_where p f xs)
All-update_where P p f [] h a = a
All-update_where P p f (x ∷ xs) h (now, rest) = elim (Bool-cases (p x)) [
  | inl t ↦ rw t (h x now t, All-update_where P p f xs h rest)
  | inr n ↦ rw n (now, All-update_where P p f xs h rest)
]

is_active-eq : (s : MembershipState) → is_active s ≡ true → s ≡ active
is_active-eq active h = refl
is_active-eq cancelled h = cc
is_active-eq removed h = cc
is_active-eq banned h = cc

-- A change of the owner's status that passes is to active.
pub allowed-eq-active :
    (db : MembershipsDb) (m : MembershipRow) (next : MembershipState) (actor : ℕ) (super : Bool)
    → is_club_owner db m.club_id m.member_id ≡ true
    → assert_admin_status_change_allowed db m actor super next ≡ ok tt
    → next ≡ active
unfolding assert_admin_status_change_allowed
allowed-eq-active db m next actor super owns allowed =
    let (_, _, h) =
      >>=-eq-ok
        (guard
          (not (m.member_id == actor && not (is_active next) && not (same_state next m.status)))
          forbidden_role)
        _ allowed in
    elim (Bool-cases (is_active next)) [
      | inl t ↦ is_active-eq next t
      | inr f ↦ cc (rw (f, owns) at h)
    ]

pub is_admin_role-eq : (r : MemberRole) → is_admin_role r || false ≡ true → r ≡ MemberRole.clubadmin
is_admin_role-eq MemberRole.clubadmin h = refl
is_admin_role-eq MemberRole.member h = cc

pub application_effects-SameMembers :
    (db : MembershipsDb) (now : ℕ) (m : MembershipRow) (next : MembershipState) (actor : ℕ)
    → SameMembers db (application_effects db now m next actor)
unfolding SameMembers apply_membership_application_effects
application_effects-SameMembers db now m active actor = (refl, refl)
application_effects-SameMembers db now m cancelled actor = (refl, refl)
application_effects-SameMembers db now m removed actor = (refl, refl)
application_effects-SameMembers db now m banned actor = (refl, refl)
