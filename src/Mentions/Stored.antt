-- ===== src/Mentions/Stored.antt =====
-- src/mentions.ts: reading the stored mentions, and copying those of a version to the next one. A map is
-- a function of its key here: what it has for a version or a message.
use clawclub_server.Common.{
  Bool, true, false, ◌&&◌, Option, none, some, List, [], ◌∷◌, ◌++◌, map, leb, if◌then◌else◌, get_or,
  any, filter, Text, text_eq, span,
}
use clawclub_server.Mentions.Extract.{ByField}
use clawclub_server.Mentions.Resolve.{
  MentionSpan, MemberRow, ContentMentionField, ContentMentionRow, DmMentionRow, MentionsDb,
  ContentMentionScope, includes, load_included_members, included_member,
  load_content_scoped_member_ids,
}
use clawclub_server.Mentions.Resolve.ContentMentionField.{title_field, summary_field, body_field}

-- `order by start_offset`
insert_by_start : MentionSpan → List MentionSpan → List MentionSpan
insert_by_start span [] = span ∷ []
insert_by_start span (s ∷ spans) =
    if leb span.start s.start then span ∷ (s ∷ spans) else s ∷ insert_by_start span spans

order_by_start : List MentionSpan → List MentionSpan
unfolding insert_by_start
order_by_start [] = []
order_by_start (s ∷ spans) = insert_by_start s (order_by_start spans)

abbrev same_field : ContentMentionField → ContentMentionField → Bool
same_field title_field title_field = true
same_field summary_field summary_field = true
same_field body_field body_field = true
same_field _ _ = false

-- canonicaliseMentionLabels
abbrev relabel : MentionSpan → Option MemberRow → MentionSpan
relabel span none = span
relabel span (some member) = record span { authored_label = member.public_name }

canonicalise_mention_labels : List MentionSpan → List MemberRow → List MentionSpan
canonicalise_mention_labels spans included =
    map (λ s. relabel s (included_member included s.member_id)) spans

abbrev empty_content_mentions : ByField (List MentionSpan)
empty_content_mentions = record { title = []; summary = []; body = [] }

-- The spans of a field of a version, of members that are allowed.
spans_of_field :
    (rows : List ContentMentionRow) (allowed : List Text) (version_id : Text)
    (field : ContentMentionField)
    → List MentionSpan
unfolding order_by_start
spans_of_field rows allowed version_id field = order_by_start (
    map (λ r. r.span)
      (filter
        (λ r.
          text_eq r.content_version_id version_id
          && (same_field r.field field && includes allowed r.span.member_id))
        rows))

-- loadEntityVersionMentions: what the map has for a version, and the members that are included.
unfoldable pub load_entity_version_mentions :
    (db : MentionsDb) (content_version_ids : List Text) (reader_scope : ContentMentionScope)
    → (Text → ByField (List MentionSpan)) × List MemberRow
unfolding spans_of_field canonicalise_mention_labels load_included_members
    load_content_scoped_member_ids
load_entity_version_mentions db content_version_ids reader_scope =
    let rows =
      filter (λ r. includes content_version_ids r.content_version_id) db.content_version_mentions in
    let allowed =
      load_content_scoped_member_ids db (map (λ r. r.span.member_id) rows) reader_scope in
    let included = load_included_members db allowed in
    (
      λ version_id. record {
        title =
            canonicalise_mention_labels (spans_of_field rows allowed version_id title_field)
              included;
        summary =
            canonicalise_mention_labels (spans_of_field rows allowed version_id summary_field)
              included;
        body =
            canonicalise_mention_labels (spans_of_field rows allowed version_id body_field)
              included;
      },
      included,
    )

unfoldable pub load_entity_version_mentions_for_version :
    (db : MentionsDb) (content_version_id : Text) (reader_scope : ContentMentionScope)
    → ByField (List MentionSpan)
unfolding load_entity_version_mentions
load_entity_version_mentions_for_version db content_version_id reader_scope =
    (load_entity_version_mentions db (content_version_id ∷ []) reader_scope).0 content_version_id

-- copyEntityVersionMentions
unfoldable pub copy_entity_version_mentions :
    (old_version_id new_version_id : Text) (fields : List ContentMentionField) (db : MentionsDb)
    → MentionsDb
copy_entity_version_mentions old_version_id new_version_id fields db = record db {
  content_version_mentions =
      db.content_version_mentions
      ++ map (λ (r : ContentMentionRow). record r { content_version_id = new_version_id })
          (filter
            (λ r. text_eq r.content_version_id old_version_id && any (same_field r.field) fields)
            db.content_version_mentions);
}

-- Whose mentions a reader of messages sees: the participants of the thread, or of each message.
pub data DmMentionReadScope : Type 0 where
  participants : List Text → DmMentionReadScope
  participants_by_message : (Text → Option (List Text)) → DmMentionReadScope

abbrev allowed_in : DmMentionReadScope → (message_id : Text) → List Text
allowed_in (participants ids) message_id = ids
allowed_in (participants_by_message ids_of) message_id = get_or (ids_of message_id) []

-- The rows of the messages whose member is allowed.
abbrev dm_rows :
    (db : MentionsDb) (message_ids : List Text) (scope : DmMentionReadScope) → List DmMentionRow
dm_rows db message_ids scope =
    filter
      (λ r.
        includes message_ids r.message_id
        && includes (allowed_in scope r.message_id) r.span.member_id)
      db.dm_message_mentions

-- loadDmMentions
unfoldable pub load_dm_mentions :
    (db : MentionsDb) (message_ids : List Text) (scope : DmMentionReadScope)
    → (Text → List MentionSpan) × List MemberRow
unfolding order_by_start canonicalise_mention_labels load_included_members
load_dm_mentions db message_ids scope =
    let rows = dm_rows db message_ids scope in
    let included = load_included_members db (map (λ r. r.span.member_id) rows) in
    (
      λ message_id.
          canonicalise_mention_labels
            (order_by_start
              (map (λ r. r.span) (filter (λ r. text_eq r.message_id message_id) rows)))
            included,
      included,
    )
