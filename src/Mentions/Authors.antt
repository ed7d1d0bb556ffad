-- ===== src/Mentions/Authors.antt =====
-- Who passes the checks of mentions before an update.
use clawclub_server.Errors.{ErrorCode}
use clawclub_server.Errors.ErrorCode.{forbidden_scope, content_not_found}
use clawclub_server.Common.{
  find-holds, ◌≡◌, refl, Bool, true, false, Option, none, some, arith, find, Result, ok, guard,
  or_throw, text_eq, text_eq_iff, subst, >>=-eq-ok,
}
use clawclub_server.Mentions.Resolve.{includes}
use clawclub_server.Mentions.Preflight.{
  ContentPreflightRow, PreflightDb, UpdateInput, is_live_content, current_content,
  preflight_content_update_mentions,
}

or_throw-eq-ok {ℓ} :
    {A : Type ℓ} (o : Option A) (code : ErrorCode) {a : A} → or_throw o code ≡ ok a → o ≡ some a
or_throw-eq-ok none code h = cc
or_throw-eq-ok (some b) code h = cc

guard-eq-ok : (passed : Bool) (code : ErrorCode) {a : _} → guard passed code ≡ ok a → passed ≡ true
guard-eq-ok true code h = refl
guard-eq-ok false code h = cc

-- A published content that is neither archived nor deleted, written by the actor, in one of the
-- actor's clubs.
abbrev pub IsOwnContent :
    (db : PreflightDb) (input : UpdateInput) (c : ContentPreflightRow) → Type 0
IsOwnContent db input c =
    (find (is_live_content input.id) db.contents ≡ some c)
    × (c.id ≡ input.id)
    × (c.is_archived ≡ false)
    × (c.is_deleted ≡ false)
    × (c.is_published ≡ true)
    × (includes input.actor_club_ids c.club_id ≡ true)
    × (c.author_member_id ≡ input.actor_member_id)

own_content :
    (db : PreflightDb) (input : UpdateInput) (c : ContentPreflightRow)
    → find (is_live_content input.id) db.contents ≡ some c
    → is_live_content input.id c ≡ true
    → includes input.actor_club_ids c.club_id ≡ true
    → text_eq c.author_member_id input.actor_member_id ≡ true
    → IsOwnContent db input c
own_content db input c found live member author = (
  found,
  (text_eq_iff c.id input.id).0 (ground (arith, live)),
  ground (arith, live),
  ground (arith, live),
  ground (arith, live),
  member,
  (text_eq_iff c.author_member_id input.actor_member_id).0 author,
)

same_answer : {A : Type 0} {a b : A} → ◌≡◌ {A = Result A} (ok a) (ok b) → a ≡ b
same_answer h = cc

current_content-IsOwnContent :
    (db : PreflightDb) (input : UpdateInput) (c : ContentPreflightRow)
    → current_content db input ≡ ok c
    → IsOwnContent db input c
unfolding current_content
current_content-IsOwnContent db input c h =
    let (found, e1, h1) =
      >>=-eq-ok (or_throw (find (is_live_content input.id) db.contents) content_not_found) _ h in
    let (_, e2, h2) =
      >>=-eq-ok (guard (includes input.actor_club_ids found.club_id) content_not_found) _ h1 in
    let (_, e3, h3) =
      >>=-eq-ok (guard (text_eq found.author_member_id input.actor_member_id) forbidden_scope) _
        h2 in
    let row = or_throw-eq-ok (find (is_live_content input.id) db.contents) content_not_found e1 in
    subst (IsOwnContent db input) (same_answer h3) (
      own_content db input found row (find-holds (is_live_content input.id) db.contents found row)
        (guard-eq-ok _ content_not_found e2) (guard-eq-ok _ forbidden_scope e3))

-- An update whose mentions pass their check is of a published content that is neither archived nor
-- deleted, in one of the actor's clubs, and the actor is its author.
pub preflight_content_update_mentions-IsOwnContent :
    (db : PreflightDb) (input : UpdateInput)
    → preflight_content_update_mentions db input ≡ ok tt
    → (c : ContentPreflightRow) × IsOwnContent db input c
unfolding preflight_content_update_mentions
preflight_content_update_mentions-IsOwnContent db input h =
    let (c, e, _) = >>=-eq-ok (current_content db input) _ h in
    (c, current_content-IsOwnContent db input c e)
