-- ===== src/Mentions/Extract.antt =====
-- src/mentions.ts: the mentions in a text, `[Display Name|memberId]`.
use clawclub_server.Common.{
  ℕ, zero, suc, ◌+◌, ◌-◌, Bool, false, not, ◌&&◌, ◌||◌, Option, none, some, List, [], ◌∷◌, ◌++◌,
  ◌==◌, if◌then◌else◌, length, any, Text, text_eq, codes, strip_prefix, take_class, span,
  ◌>>?◌ as ◌>>=◌, trim, is_visible_text,
}
use clawclub_server.Tokens.Alphabet.{in_alphabet}

-- A mention that was found; `authored_label` and `member_id` are the groups of the match.
pub record ExtractedMention : Type 0 where
  pub text : Text
  pub authored_label : Text
  pub member_id : Text
  pub start : ℕ
  pub end : ℕ

pub record ContentTexts : Type 0 where
  pub title : Option Text
  pub summary : Option Text
  pub body : Option Text

-- A value for each field of a content.
pub record ByField (A : Type 0) : Type 0 where
  pub title : A
  pub summary : A
  pub body : A

-- `[^\[\]|\r\n]`
unfoldable pub in_label : ℕ → Bool
in_label c = not (c == 91 || (c == 93 || (c == 124 || (c == 13 || c == 10))))

abbrev pub non_empty : Text → Option (Unit {0})
non_empty [] = none
non_empty (c ∷ s) = some tt

-- MENTION_RE at the start of the text: the label, the id of the member, and what follows. A label
-- ends where the class ends, since the `|` behind it is not in the class.
unfoldable pub match_mention : Text → Option (Text × Text × Text)
unfolding in_label span
match_mention text = do
  after_bracket ← strip_prefix (codes "[") text
  let (label, after_label) = span in_label after_bracket
  _ ← non_empty label
  after_bar ← strip_prefix (codes "|") after_label
  (member_id, after_id) ← take_class in_alphabet 12 after_bar
  rest ← strip_prefix (codes "]") after_id
  some (label, member_id, rest)

-- match[0]
abbrev pub mention_text : (label member_id : Text) → Text
mention_text label member_id = codes "[" ++ (label ++ (codes "|" ++ (member_id ++ codes "]")))

-- A label with white space round it, or of white space, is no mention.
unfoldable pub is_exact_label : Text → Bool
is_exact_label label = is_visible_text label && text_eq label (trim label)

abbrev pub mention_at : (index : ℕ) (label member_id : Text) → ExtractedMention
mention_at index label member_id = record {
  text = mention_text label member_id;
  authored_label = label;
  member_id = member_id;
  start = index;
  end = index + length (mention_text label member_id);
}

-- One match of the loop, at `index`: `more` goes on behind the first character, skipping as many as it
-- is told to.
unfoldable pub take_match :
    (index : ℕ) (more : ℕ → List ExtractedMention)
    → Option (Text × Text × Text)
    → List ExtractedMention
unfolding is_exact_label
take_match index more none = more 0
take_match index more (some (label, member_id, rest)) =
    let behind = more (length (mention_text label member_id) - 1) in
    if is_exact_label label then mention_at index label member_id ∷ behind else behind

-- The loop of `MENTION_RE.exec`: `index` is the position of the text that is left, of which the first
-- `skip` characters belong to the last match.
unfoldable pub scan_mentions : (skip index : ℕ) (text : Text) → List ExtractedMention
unfolding match_mention take_match
scan_mentions skip index [] = []
scan_mentions (suc skip) index (c ∷ s) = scan_mentions skip (index + 1) s
scan_mentions zero index (c ∷ s) =
    take_match index (λ skip. scan_mentions skip (index + 1) s) (match_mention (c ∷ s))

-- extractMentionCandidates. Without a `[` the loop finds nothing either.
unfoldable pub extract_mention_candidates : Option Text → List ExtractedMention
unfolding scan_mentions
extract_mention_candidates none = []
extract_mention_candidates (some text) =
    if any (λ c. c == 91) text then scan_mentions zero 0 text else []

unfoldable pub extract_content_mention_candidates : ContentTexts → ByField (List ExtractedMention)
unfolding extract_mention_candidates
extract_content_mention_candidates input = record {
  title = extract_mention_candidates input.title;
  summary = extract_mention_candidates input.summary;
  body = extract_mention_candidates input.body;
}

-- hasPotentialMentionChar
unfoldable pub has_potential_mention_char : List (Option Text) → Bool
has_potential_mention_char [] = false
has_potential_mention_char (none ∷ texts) = has_potential_mention_char texts
has_potential_mention_char (some text ∷ texts) =
    any (λ c. c == 91) text || has_potential_mention_char texts
