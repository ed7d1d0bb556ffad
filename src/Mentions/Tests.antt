-- ===== src/Mentions/Tests.antt =====
-- Mentions in concrete texts.
use clawclub_server.Errors.ErrorCode.{invalid_mentions}
use clawclub_server.Common.{
  ◌≡◌, refl, true, false, not, none, some, List, [], ◌∷◌, any, All, ok, err, Text, text_eq, codes,
  strip_prefix, take_class, is_space, is_visible_text,
}
use clawclub_server.Tokens.Alphabet.{in_alphabet}
use clawclub_server.Mentions.Extract.{
  ExtractedMention, ByField, ContentTexts, mention_at, extract_mention_candidates,
}
use clawclub_server.Mentions.Spans.{AreMentions, InOrder, extract_mention_candidates-Found}
use clawclub_server.Mentions.Resolve.{
  insert_dm_message_mentions, MentionSpan, MentionsDb, includes, is_allowed, all_spans, shares_club,
  resolve_public_content_mentions, resolve_direct_message_mentions,
}
use clawclub_server.Mentions.Stored.{load_dm_mentions}
use clawclub_server.Mentions.Stored.DmMentionReadScope.{participants}
use clawclub_server.Mentions.Preflight.{
  ContentPreflightRow, PreflightDb, UpdateInput, preflight_content_update_mentions,
}
use clawclub_server.Mentions.Authors.{IsOwnContent, preflight_content_update_mentions-IsOwnContent}
use clawclub_server.Mentions.Allowed.{
  WithinLimits, resolve_direct_message_mentions-Allowed, resolve_public_content_mentions-Allowed,
}

abbrev ann : Text
ann = codes "aaaaaaaaaaaa"

abbrev bob : Text
bob = codes "bbbbbbbbbbbb"

-- Two mentions, and one with a label that starts with a space.
abbrev sample : Text
sample = codes "Hi [Ann|aaaaaaaaaaaa][ Bob|bbbbbbbbbbbb], [Bob|bbbbbbbbbbbb]!"

sample_mentions :
    extract_mention_candidates (some sample)
    ≡ mention_at 3 (codes "Ann") ann ∷ mention_at 42 (codes "Bob") bob ∷ []
unfolding extract_mention_candidates strip_prefix take_class in_alphabet is_visible_text is_space
    text_eq
sample_mentions = refl

extract_mention_candidates-Found_example :
    AreMentions sample (extract_mention_candidates (some sample))
    × InOrder 0 (extract_mention_candidates (some sample))
extract_mention_candidates-Found_example = extract_mention_candidates-Found sample

abbrev mentions_db : MentionsDb
mentions_db = record {
  members =
      record { id = ann; public_name = codes "Ann A." }
      ∷ record { id = bob; public_name = codes "Bob B." }
      ∷ [];
  accessible_club_memberships =
      record { club_id = codes "c"; member_id = ann }
      ∷ record { club_id = codes "c"; member_id = bob }
      ∷ [];
  content_version_mentions = [];
  dm_message_mentions = [];
}

abbrev short_text : Text
short_text = codes "[Ann|aaaaaaaaaaaa]"

abbrev short_spans : List MentionSpan
short_spans = record { member_id = ann; authored_label = codes "Ann A."; start = 0; end = 18 } ∷ []

resolved : resolve_direct_message_mentions mentions_db short_text (ann ∷ bob ∷ []) ≡ ok short_spans
unfolding resolve_direct_message_mentions extract_mention_candidates strip_prefix take_class
    in_alphabet is_visible_text is_space text_eq
resolved = refl

resolve_direct_message_mentions-Allowed_example :
    (any (λ m. not (is_allowed (bob ∷ []) m)) (extract_mention_candidates (some short_text)) ≡ true
      → resolve_direct_message_mentions mentions_db short_text (bob ∷ []) ≡ err invalid_mentions)
    × ((spans : List MentionSpan)
        → resolve_direct_message_mentions mentions_db short_text (bob ∷ []) ≡ ok spans
        → All (λ s. includes (bob ∷ []) s.member_id ≡ true) spans × WithinLimits spans)
resolve_direct_message_mentions-Allowed_example =
    resolve_direct_message_mentions-Allowed mentions_db short_text (bob ∷ [])

abbrev in_body : ByField (List ExtractedMention)
in_body = record { title = []; summary = []; body = mention_at 0 (codes "Ann") ann ∷ [] }

abbrev body_spans : ByField (List MentionSpan)
body_spans = record { title = []; summary = []; body = short_spans }

resolved_content : resolve_public_content_mentions mentions_db in_body bob ≡ ok body_spans
unfolding resolve_public_content_mentions text_eq
resolved_content = refl

resolve_public_content_mentions-Allowed_example :
    All (λ s. shares_club mentions_db bob s.member_id ≡ true) (all_spans body_spans)
    × WithinLimits (all_spans body_spans)
resolve_public_content_mentions-Allowed_example =
    resolve_public_content_mentions-Allowed mentions_db in_body bob body_spans resolved_content

abbrev no_texts : ContentTexts
no_texts = record { title = none; summary = none; body = none }

abbrev bobs_content : ContentPreflightRow
bobs_content = record {
  id = codes "e1";
  club_id = codes "c";
  author_member_id = bob;
  client_key = none;
  is_archived = false;
  is_deleted = false;
  is_published = true;
  version_id = codes "v1";
  texts = no_texts;
}

abbrev preflight_db : PreflightDb
preflight_db = record { mentions = mentions_db; content_threads = []; contents = bobs_content ∷ [] }

-- A new body with a mention.
abbrev body_update : UpdateInput
body_update = record {
  actor_member_id = bob;
  actor_club_ids = codes "c" ∷ [];
  id = codes "e1";
  patch = record { title = none; summary = none; body = some (some short_text) };
}

passes : preflight_content_update_mentions preflight_db body_update ≡ ok tt
unfolding preflight_content_update_mentions extract_mention_candidates strip_prefix take_class
    in_alphabet is_visible_text is_space text_eq
passes = refl

preflight_content_update_mentions-IsOwnContent_example :
    (c : ContentPreflightRow) × IsOwnContent preflight_db body_update c
preflight_content_update_mentions-IsOwnContent_example =
    preflight_content_update_mentions-IsOwnContent preflight_db body_update passes

-- The stored spans are read back, in their order.
stored_and_read :
    (load_dm_mentions
        (insert_dm_message_mentions (codes "m") short_spans mentions_db)
        (codes "m" ∷ [])
        (participants (ann ∷ []))).0
      (codes "m")
    ≡ short_spans
unfolding load_dm_mentions insert_dm_message_mentions text_eq
stored_and_read = refl
