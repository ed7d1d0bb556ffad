-- ===== src/Mentions/Preflight.antt =====
-- src/mentions.ts: the checks of the mentions before a content is created or updated. The tables of
-- contents have what the queries read of them.
use clawclub_server.Errors.ErrorCode.{thread_not_found, forbidden_scope, content_not_found}
use clawclub_server.Common.{
  Bool, true, false, not, ◌&&◌, Option, none, some, List, [], ◌∷◌, ◌++◌, ◌==◌, if◌then◌else◌,
  get_or, length, find, any, Result, ok, err, ◌>>=◌, ◌>>◌, guard, or_throw, Text, text_eq,
}
use clawclub_server.Mentions.Extract.{
  ContentTexts, ByField, ExtractedMention, extract_content_mention_candidates,
  has_potential_mention_char,
}
use clawclub_server.Mentions.Resolve.{
  MentionsDb, includes, resolve_public_content_mentions, all_spans,
  apply_content_mention_limits_for_update,
}
use clawclub_server.Mentions.Resolve.ContentMentionScope.{member_scope}
use clawclub_server.Mentions.Stored.{load_entity_version_mentions_for_version}

pub record ThreadRow : Type 0 where
  pub id : Text
  pub club_id : Text
  pub is_archived : Bool

-- A content with its current version.
pub record ContentPreflightRow : Type 0 where
  pub id : Text
  pub club_id : Text
  pub author_member_id : Text
  pub client_key : Option Text
  pub is_archived : Bool
  pub is_deleted : Bool
  pub is_published : Bool
  pub version_id : Text
  pub texts : ContentTexts

pub record PreflightDb : Type 0 where
  pub mentions : MentionsDb
  pub content_threads : List ThreadRow
  pub contents : List ContentPreflightRow

pub record CreateInput : Type 0 where
  pub actor_member_id : Text
  pub actor_club_ids : List Text
  pub club_id : Option Text
  pub thread_id : Option Text
  pub texts : ContentTexts
  pub client_key : Option Text

-- A text that is not empty: the empty text is falsy.
abbrev truthy : Option Text → Option Text
truthy none = none
truthy (some []) = none
truthy (some (c ∷ s)) = some (c ∷ s)

abbrev is_some {ℓ} : {A : Type ℓ} → Option A → Bool
is_some none = false
is_some (some a) = true

abbrev same_key : Option Text → Text → Bool
same_key none key = false
same_key (some k) key = text_eq k key

-- The club of the content: the one that is named, or that of its thread.
preflight_club : (db : PreflightDb) (club_id thread_id : Option Text) → Result Text
preflight_club db (some club) thread_id = ok club
preflight_club db none none = err thread_not_found
preflight_club db none (some thread) =
    or_throw (find (λ t. text_eq t.id thread && not t.is_archived) db.content_threads)
      thread_not_found
    >>= λ t. or_throw (truthy (some t.club_id)) thread_not_found

-- A content of the author with this client key.
abbrev is_repeated : (db : PreflightDb) (actor : Text) → Option Text → Bool
is_repeated db actor none = false
is_repeated db actor (some key) =
    any
      (λ c.
        text_eq c.author_member_id actor
        && (same_key c.client_key key && (not c.is_archived && not c.is_deleted)))
      db.contents

abbrev none_extracted : ByField (List ExtractedMention) → Bool
none_extracted e = length (e.title ++ (e.summary ++ e.body)) == 0

check_created_mentions : (db : PreflightDb) (input : CreateInput) → Result (Unit {0})
unfolding has_potential_mention_char extract_content_mention_candidates
    resolve_public_content_mentions
check_created_mentions db input =
    let extracted = extract_content_mention_candidates input.texts in
    if not
      (has_potential_mention_char (input.texts.title ∷ input.texts.summary ∷ input.texts.body ∷ []))
    then ok tt
    else if is_repeated db input.actor_member_id (truthy input.client_key)
    then ok tt
    else if none_extracted extracted
    then ok tt
    else resolve_public_content_mentions db.mentions extracted input.actor_member_id >>= λ spans.
        ok tt

unfoldable pub preflight_content_create_mentions :
    (db : PreflightDb) (input : CreateInput) → Result (Unit {0})
unfolding preflight_club check_created_mentions
preflight_content_create_mentions db input =
    if not (is_some (truthy input.club_id)) && not (is_some (truthy input.thread_id))
    then ok tt
    else do
      club ← preflight_club db (truthy input.club_id) (truthy input.thread_id)
      guard (includes input.actor_club_ids club)
          (if is_some (truthy input.thread_id) then thread_not_found else forbidden_scope)
      check_created_mentions db input

-- A field of a patch: absent, or a new value, which may be null.
pub record ContentPatch : Type 0 where
  pub title : Option (Option Text)
  pub summary : Option (Option Text)
  pub body : Option (Option Text)

pub record UpdateInput : Type 0 where
  pub actor_member_id : Text
  pub actor_club_ids : List Text
  pub id : Text
  pub patch : ContentPatch

abbrev same_text : (a b : Option Text) → Bool
same_text none none = true
same_text (some a) (some b) = text_eq a b
same_text _ _ = false

-- The next text of a field, if the patch changes it.
changed_text : (patch : Option (Option Text)) (current : Option Text) → Option (Option Text)
changed_text none current = none
changed_text (some next) current = if same_text next current then none else some next

-- The condition of the query for the content.
abbrev pub is_live_content : (id : Text) (c : ContentPreflightRow) → Bool
is_live_content id c =
    text_eq c.id id && (not c.is_archived && (not c.is_deleted && c.is_published))

unfoldable pub current_content :
    (db : PreflightDb) (input : UpdateInput) → Result ContentPreflightRow
current_content db input = do
  current ← or_throw (find (is_live_content input.id) db.contents) content_not_found
  guard (includes input.actor_club_ids current.club_id) content_not_found
  guard (text_eq current.author_member_id input.actor_member_id) forbidden_scope
  ok current

abbrev merged {ℓ} : {A : Type ℓ} (change : Option (Option Text)) (changed existing : A) → A
merged none changed existing = existing
merged (some next) changed existing = changed

-- The limits are those of the whole version that would be stored.
check_changed_mentions :
    (db : PreflightDb) (input : UpdateInput) (current : ContentPreflightRow) → Result (Unit {0})
unfolding changed_text extract_content_mention_candidates resolve_public_content_mentions
    load_entity_version_mentions_for_version apply_content_mention_limits_for_update
check_changed_mentions db input current =
    let title = changed_text input.patch.title current.texts.title in
    let summary = changed_text input.patch.summary current.texts.summary in
    let body = changed_text input.patch.body current.texts.body in
    let extracted = extract_content_mention_candidates (record {
      title = get_or title none;
      summary = get_or summary none;
      body = get_or body none;
    }) in
    if none_extracted extracted
    then ok tt
    else let existing =
        load_entity_version_mentions_for_version db.mentions current.version_id
          (member_scope input.actor_member_id) in
      resolve_public_content_mentions db.mentions extracted input.actor_member_id >>= λ changed.
      apply_content_mention_limits_for_update
        (record {
          title = merged title changed.title existing.title;
          summary = merged summary changed.summary existing.summary;
          body = merged body changed.body existing.body;
        })
        (length (all_spans changed))

unfoldable pub preflight_content_update_mentions :
    (db : PreflightDb) (input : UpdateInput) → Result (Unit {0})
unfolding current_content check_changed_mentions
preflight_content_update_mentions db input = do
  current ← current_content db input
  check_changed_mentions db input current
