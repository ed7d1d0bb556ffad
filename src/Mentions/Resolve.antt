-- ===== src/Mentions/Resolve.antt =====
-- src/mentions.ts: which mentions a writer may make, and the rows that are stored. The rows of the view
-- `accessible_club_memberships` are a table.
use clawclub_server.Errors.ErrorCode.{invalid_input, invalid_mentions}
use clawclub_server.Common.{
  ℕ, Bool, true, false, not, ◌&&◌, ◌||◌, Option, none, some, List, [], ◌∷◌, ◌++◌, map, ltb,
  if◌then◌else◌, get_or, length, find, any, filter, Result, ok, ◌>>◌, guard, Text, text_eq,
}
use clawclub_server.Mentions.Extract.{ExtractedMention, ByField, extract_mention_candidates}

abbrev pub max_unique_mentioned_members : ℕ
max_unique_mentioned_members = 25

abbrev pub max_mention_spans : ℕ
max_mention_spans = 100

pub record MentionSpan : Type 0 where
  pub member_id : Text
  pub authored_label : Text
  pub start : ℕ
  pub end : ℕ

pub record MemberRow : Type 0 where
  pub id : Text
  pub public_name : Text

pub record MembershipRow : Type 0 where
  pub club_id : Text
  pub member_id : Text

pub data ContentMentionField : Type 0 where
  title_field : ContentMentionField
  summary_field : ContentMentionField
  body_field : ContentMentionField

pub record ContentMentionRow : Type 0 where
  pub content_version_id : Text
  pub field : ContentMentionField
  pub span : MentionSpan

pub record DmMentionRow : Type 0 where
  pub message_id : Text
  pub span : MentionSpan

pub record MentionsDb : Type 0 where
  pub members : List MemberRow
  pub accessible_club_memberships : List MembershipRow
  pub content_version_mentions : List ContentMentionRow
  pub dm_message_mentions : List DmMentionRow

-- Who may be mentioned: the members that share a club with the writer, or all of them.
pub data ContentMentionScope : Type 0 where
  superadmin : ContentMentionScope
  member_scope : Text → ContentMentionScope

pub data MentionContext : Type 0 where
  content : MentionContext
  message : MentionContext

abbrev pub includes : List Text → Text → Bool
includes ids id = any (λ i. text_eq i id) ids

-- The distinct texts of a list, the last of equal ones; of a `Set` only its size is used.
unfoldable pub distinct : List Text → List Text
distinct [] = []
distinct (id ∷ ids) = let rest = distinct ids in if includes ids id then rest else id ∷ rest

-- assertMentionLimits
unfoldable pub assert_mention_limits :
    (unique_members span_count : ℕ) (context : MentionContext) (changed_field_span_count : Option ℕ)
    → Result (Unit {0})
assert_mention_limits unique_members span_count content changed =
    guard
      (not (
        (ltb max_unique_mentioned_members unique_members || ltb max_mention_spans span_count)
        && ltb 0 (get_or changed span_count)))
      invalid_input
assert_mention_limits unique_members span_count message changed =
    guard
      (not (ltb max_unique_mentioned_members unique_members || ltb max_mention_spans span_count))
      invalid_input

-- uniqueMemberIdsInOrder: `seen` are the ids of the mentions before.
unfoldable pub unique_member_ids_in_order : (seen : List Text) → List ExtractedMention → List Text
unique_member_ids_in_order seen [] = []
unique_member_ids_in_order seen (mention ∷ mentions) = elim (includes seen mention.member_id) [
  | true ↦ unique_member_ids_in_order seen mentions
  | false ↦ mention.member_id ∷ unique_member_ids_in_order (mention.member_id ∷ seen) mentions
]

-- loadIncludedMembers: the rows of these members.
unfoldable pub load_included_members : (db : MentionsDb) (member_ids : List Text) → List MemberRow
load_included_members db member_ids = filter (λ m. includes member_ids m.id) db.members

-- included.membersById[id]
abbrev pub included_member : (included : List MemberRow) (id : Text) → Option MemberRow
included_member included id = find (λ m. text_eq m.id id) included

-- The span of a mention of a member that is included.
abbrev pub canonical_span : (mention : ExtractedMention) → Option MemberRow → List MentionSpan
canonical_span mention none = []
canonical_span mention (some member) =
    record {
      member_id = mention.member_id;
      authored_label = member.public_name;
      start = mention.start;
      end = mention.end;
    }
    ∷ []

unfoldable pub to_canonical_mention_spans :
    (mentions : List ExtractedMention) (included : List MemberRow) → List MentionSpan
to_canonical_mention_spans [] included = []
to_canonical_mention_spans (mention ∷ mentions) included =
    canonical_span mention (included_member included mention.member_id)
    ++ to_canonical_mention_spans mentions included

-- The two memberships of a club that the query joins.
unfoldable pub shares_club : (db : MentionsDb) (actor_id mentioned_id : Text) → Bool
shares_club db actor_id mentioned_id =
    any
      (λ actor.
        text_eq actor.member_id actor_id
        && any (λ m. text_eq m.club_id actor.club_id && text_eq m.member_id mentioned_id)
            db.accessible_club_memberships)
      db.accessible_club_memberships

unfoldable pub load_content_scoped_member_ids :
    (db : MentionsDb) (member_ids : List Text) (scope : ContentMentionScope) → List Text
unfolding shares_club
load_content_scoped_member_ids db member_ids superadmin = member_ids
load_content_scoped_member_ids db member_ids (member_scope actor_id) =
    filter (λ id. shares_club db actor_id id) member_ids

abbrev pub is_allowed : (allowed : List Text) (mention : ExtractedMention) → Bool
is_allowed allowed mention = includes allowed mention.member_id

-- `throwInvalidMentions` where a mention is not allowed.
abbrev pub require_allowed :
    (allowed : List Text) (mentions : List ExtractedMention) → Result (Unit {0})
require_allowed allowed mentions =
    guard (not (any (λ m. not (is_allowed allowed m)) mentions)) invalid_mentions

abbrev pub all_spans : ByField (List MentionSpan) → List MentionSpan
all_spans mentions = mentions.title ++ (mentions.summary ++ mentions.body)

abbrev pub unique_count : List MentionSpan → ℕ
unique_count spans = length (distinct (map (λ s. s.member_id) spans))

abbrev pub allowed_spans :
    (allowed : List Text) (included : List MemberRow) → List ExtractedMention → List MentionSpan
allowed_spans allowed included mentions =
    to_canonical_mention_spans (filter (is_allowed allowed) mentions) included

unfoldable pub resolve_public_content_mentions :
    (db : MentionsDb) (extracted : ByField (List ExtractedMention)) (member_id : Text)
    → Result (ByField (List MentionSpan))
unfolding unique_member_ids_in_order load_content_scoped_member_ids load_included_members
    to_canonical_mention_spans assert_mention_limits distinct
resolve_public_content_mentions db extracted member_id =
    let all_mentions = extracted.title ++ (extracted.summary ++ extracted.body) in
    let allowed =
      load_content_scoped_member_ids db (unique_member_ids_in_order [] all_mentions)
        (member_scope member_id) in
    let included = load_included_members db allowed in
    let mentions : ByField (List MentionSpan) = record {
      title = allowed_spans allowed included extracted.title;
      summary = allowed_spans allowed included extracted.summary;
      body = allowed_spans allowed included extracted.body;
    } in
    require_allowed allowed all_mentions
    >> assert_mention_limits (unique_count (all_spans mentions)) (length (all_spans mentions))
        content none
    >> ok mentions

unfoldable pub resolve_direct_message_mentions :
    (db : MentionsDb) (message_text : Text) (thread_participant_ids : List Text)
    → Result (List MentionSpan)
unfolding extract_mention_candidates unique_member_ids_in_order load_included_members
    to_canonical_mention_spans assert_mention_limits distinct
resolve_direct_message_mentions db message_text thread_participant_ids =
    let extracted = extract_mention_candidates (some message_text) in
    let allowed = filter (is_allowed thread_participant_ids) extracted in
    let included = load_included_members db (unique_member_ids_in_order [] allowed) in
    let mentions = to_canonical_mention_spans allowed included in
    require_allowed thread_participant_ids extracted
    >> assert_mention_limits (unique_count mentions) (length mentions) message none
    >> ok mentions

-- insertEntityVersionMentions
unfoldable pub insert_entity_version_mentions :
    (content_version_id : Text) (mentions : ByField (List MentionSpan)) (db : MentionsDb)
    → MentionsDb
insert_entity_version_mentions content_version_id mentions db =
    let row : ContentMentionField → MentionSpan → ContentMentionRow =
      λ f s. record { content_version_id = content_version_id; field = f; span = s } in
    record db {
      content_version_mentions =
          db.content_version_mentions
          ++ (map (row title_field) mentions.title
              ++ (map (row summary_field) mentions.summary ++ map (row body_field) mentions.body));
    }

-- insertDmMessageMentions
unfoldable pub insert_dm_message_mentions :
    (message_id : Text) (mentions : List MentionSpan) (db : MentionsDb) → MentionsDb
insert_dm_message_mentions message_id mentions db = record db {
  dm_message_mentions =
      db.dm_message_mentions ++ map (λ s. record { message_id = message_id; span = s }) mentions;
}

-- applyContentMentionLimitsForUpdate
unfoldable pub apply_content_mention_limits_for_update :
    (mentions : ByField (List MentionSpan)) (changed_field_span_count : ℕ) → Result (Unit {0})
unfolding assert_mention_limits distinct
apply_content_mention_limits_for_update mentions changed_field_span_count =
    assert_mention_limits (unique_count (all_spans mentions)) (length (all_spans mentions)) content
      (some changed_field_span_count)
