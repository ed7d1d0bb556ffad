-- ===== src/Mentions/Allowed.antt =====
-- Which mentions are stored: only those that the writer may make, and not too many.
use clawclub_server.Errors.ErrorCode.{invalid_mentions}
use clawclub_server.Common.{
  ℕ, ◌≤◌, ◌≡◌, refl, inl, inr, Bool, true, not, ◌||◌, Option, none, some, List, [], ◌∷◌, ◌++◌, map,
  arith, ltb, length, any, filter, All, Result, ok, err, ◌>>◌, Bool-cases, All-map, Text, text_eq,
  text_eq_iff, subst,
}
use clawclub_server.Mentions.Extract.{ExtractedMention, ByField, extract_mention_candidates}
use clawclub_server.Mentions.Resolve.{
  distinct, max_unique_mentioned_members, max_mention_spans, MentionSpan, MemberRow, MentionsDb,
  MentionContext, includes, assert_mention_limits, unique_member_ids_in_order,
  load_included_members, included_member, canonical_span, to_canonical_mention_spans, shares_club,
  load_content_scoped_member_ids, is_allowed, require_allowed, all_spans, unique_count,
  allowed_spans, resolve_public_content_mentions, resolve_direct_message_mentions,
}
use clawclub_server.Mentions.Resolve.MentionContext.{content, message}
use clawclub_server.Mentions.Resolve.ContentMentionScope.{member_scope}

filter-All {ℓ} : {A : Type ℓ} (p : A → Bool) (xs : List A) → All (λ a. p a ≡ true) (filter p xs)
filter-All p [] = tt
filter-All p (x ∷ xs) = elim (Bool-cases (p x)) [
  | inl yes_x ↦ rw yes_x (yes_x, filter-All p xs)
  | inr no_x ↦ rw no_x (filter-All p xs)
]

All-append {ℓ κ} :
    {A : Type ℓ} (P : A → Type κ) (xs ys : List A) → All P xs → All P ys → All P (xs ++ ys)
All-append P [] ys h k = k
All-append P (x ∷ xs) ys (h, hs) k = (h, All-append P xs ys hs k)

-- The members of the spans are those of the mentions.
canonical_span-All :
    (P : Text → Type 0) (m : ExtractedMention) (row : Option MemberRow)
    → P m.member_id
    → All (λ s. P s.member_id) (canonical_span m row)
canonical_span-All P m none h = tt
canonical_span-All P m (some row) h = (h, tt)

to_canonical-All :
    (P : Text → Type 0) (ms : List ExtractedMention) (included : List MemberRow)
    → All (λ m. P m.member_id) ms
    → All (λ s. P s.member_id) (to_canonical_mention_spans ms included)
unfolding to_canonical_mention_spans
to_canonical-All P [] included h = tt
to_canonical-All P (m ∷ ms) included (h, hs) =
    All-append (λ (s : MentionSpan). P s.member_id)
      (canonical_span m (included_member included m.member_id)) _
      (canonical_span-All P m (included_member included m.member_id) h)
      (to_canonical-All P ms included hs)

includes-filter :
    (p : Text → Bool) (ids : List Text) (id : Text)
    → includes (filter p ids) id ≡ true
    → p id ≡ true
includes-filter p [] id h = cc
includes-filter p (i ∷ ids) id h = elim (Bool-cases (p i)) [
  | inr out ↦ includes-filter p ids id (rw out at h)
  | inl there ↦ elim (Bool-cases (text_eq i id)) [
    | inl same ↦ subst (λ x. p x ≡ true) ((text_eq_iff i id).0 same) there
    | inr other ↦ includes-filter p ids id (rw (there, other) at h)
  ]
]

-- Few spans, of few members.
abbrev pub WithinLimits : List MentionSpan → Type 0
WithinLimits spans =
    (length spans ≤ max_mention_spans) × (unique_count spans ≤ max_unique_mentioned_members)

distinct-le : (ids : List Text) → length (distinct ids) ≤ length ids
unfolding distinct
distinct-le [] = omega arith
distinct-le (id ∷ ids) = ground (arith, distinct-le ids)

length-map : (spans : List MentionSpan) → length (map (λ s. s.member_id) spans) ≡ length spans
length-map [] = refl
length-map (s ∷ spans) = omega (arith, length-map spans)

limits_hold :
    (unique spans : ℕ) (context : MentionContext)
    → unique ≤ spans
    → assert_mention_limits unique spans context none ≡ ok tt
    → (spans ≤ max_mention_spans) × (unique ≤ max_unique_mentioned_members)
unfolding assert_mention_limits
limits_hold unique spans content le h =
    elim (Bool-cases (ltb max_unique_mentioned_members unique || ltb max_mention_spans spans)) [
      | inl over ↦ elim (Bool-cases (ltb 0 spans)) [
        | inl some_there ↦ absurd (let refused = rw (over, some_there) at h in ground arith)
        | inr none_there ↦ ground (arith, none_there, le)
      ]
      | inr under ↦ ground (arith, under)
    ]
limits_hold unique spans message le h =
    elim (Bool-cases (ltb max_unique_mentioned_members unique || ltb max_mention_spans spans)) [
      | inl over ↦ absurd (let refused = rw over at h in ground arith)
      | inr under ↦ ground (arith, under)
    ]

within :
    (spans : List MentionSpan) (context : MentionContext)
    → assert_mention_limits (unique_count spans) (length spans) context none ≡ ok tt
    → WithinLimits spans
within spans context h =
    limits_hold (unique_count spans) (length spans) context
      (omega (arith, distinct-le (map (λ (s : MentionSpan). s.member_id) spans), length-map spans))
      h

-- What two checks let through.
let_through :
    {A : Type 0} (first limits : Result (Unit {0})) (answer result : A)
    → (first >> limits >> ok answer) ≡ ok result
    → (answer ≡ result) × (limits ≡ ok tt)
let_through (err code) limits answer result h = cc
let_through (ok _) (err code) answer result h = cc
let_through (ok _) (ok _) answer result h = (cc, refl)

-- The mentions of a direct message that are stored are of participants of the thread, at most 100
-- and of at most 25 members; a message with a mention of anyone else is refused with
-- invalid_mentions.
pub resolve_direct_message_mentions-Allowed :
    (db : MentionsDb) (text : Text) (participants : List Text)
    → (any (λ m. not (is_allowed participants m)) (extract_mention_candidates (some text)) ≡ true
        → resolve_direct_message_mentions db text participants ≡ err invalid_mentions)
      × ((spans : List MentionSpan)
          → resolve_direct_message_mentions db text participants ≡ ok spans
          → All (λ s. includes participants s.member_id ≡ true) spans × WithinLimits spans)
unfolding resolve_direct_message_mentions
resolve_direct_message_mentions-Allowed db text participants = (
  λ outside. rw outside refl,
  λ spans h.
      let extracted = extract_mention_candidates (some text) in
      let allowed = filter (is_allowed participants) extracted in
      let included = load_included_members db (unique_member_ids_in_order [] allowed) in
      let answer = to_canonical_mention_spans allowed included in
      let (same, limits) =
        let_through (require_allowed participants extracted)
          (assert_mention_limits (unique_count answer) (length answer) message none) answer spans
          h in
      subst
        (λ (ss : List MentionSpan).
          All (λ s. includes participants s.member_id ≡ true) ss × WithinLimits ss)
        same
        (
          to_canonical-All (λ id. includes participants id ≡ true) allowed included
              (filter-All (is_allowed participants) extracted),
          within answer message limits,
        ),
)

scoped :
    (db : MentionsDb) (writer : Text) (ms all_of : List ExtractedMention)
    (included : List MemberRow)
    → All
        (λ s. shares_club db writer s.member_id ≡ true)
        (allowed_spans
          (load_content_scoped_member_ids db
            (unique_member_ids_in_order [] all_of)
            (member_scope writer))
          included
          ms)
unfolding load_content_scoped_member_ids
scoped db writer ms all_of included =
    let ids = unique_member_ids_in_order [] all_of in
    let allowed = filter (λ id. shares_club db writer id) ids in
    to_canonical-All (λ id. shares_club db writer id ≡ true) (filter (is_allowed allowed) ms)
      included
      (All-map (filter (is_allowed allowed) ms)
        (λ m h. includes-filter (λ id. shares_club db writer id) ids m.member_id h)
        (filter-All (is_allowed allowed) ms))

-- The mentions of a content that are stored are of members that share a club with the writer, at most
-- 100 in all and of at most 25 members.
pub resolve_public_content_mentions-Allowed :
    (db : MentionsDb) (extracted : ByField (List ExtractedMention)) (writer : Text)
    (mentions : ByField (List MentionSpan))
    → resolve_public_content_mentions db extracted writer ≡ ok mentions
    → All (λ s. shares_club db writer s.member_id ≡ true) (all_spans mentions)
      × WithinLimits (all_spans mentions)
unfolding resolve_public_content_mentions
resolve_public_content_mentions-Allowed db extracted writer mentions h =
    let all_mentions = extracted.title ++ (extracted.summary ++ extracted.body) in
    let allowed =
      load_content_scoped_member_ids db (unique_member_ids_in_order [] all_mentions)
        (member_scope writer) in
    let included = load_included_members db allowed in
    let answer : ByField (List MentionSpan) = record {
      title = allowed_spans allowed included extracted.title;
      summary = allowed_spans allowed included extracted.summary;
      body = allowed_spans allowed included extracted.body;
    } in
    let (same, limits) =
      let_through (require_allowed allowed all_mentions)
        (assert_mention_limits (unique_count (all_spans answer)) (length (all_spans answer)) content
          none)
        answer mentions h in
    subst
      (λ (r : ByField (List MentionSpan)).
        All (λ s. shares_club db writer s.member_id ≡ true) (all_spans r)
        × WithinLimits (all_spans r))
      same
      (
        All-append (λ (s : MentionSpan). shares_club db writer s.member_id ≡ true) answer.title _
            (scoped db writer extracted.title all_mentions included)
            (All-append (λ (s : MentionSpan). shares_club db writer s.member_id ≡ true)
              answer.summary _ (scoped db writer extracted.summary all_mentions included)
              (scoped db writer extracted.body all_mentions included)),
        within (all_spans answer) content limits,
      )
