-- ===== src/Mentions/Spans.antt =====
-- The spans of the mentions that are extracted.
use clawclub_server.Common.{
  ℕ, zero, suc, ◌+◌, ◌-◌, ◌≤◌, ◌≡◌, refl, sym, ap, ◌∙◌, inl, inr, true, Option, none, some, List,
  [], ◌∷◌, ◌++◌, arith, ◌==◌, length, any, All, Bool-cases, length-append, Text, codes, AllOf,
  strip_prefix, take_class, span, strip_prefix-eq-some, take_class-eq-some, span-joins, span-AllOf,
  >>?-eq-some, subst, append_assoc,
}
use mathlib.Core.Option.{some-injective}
use clawclub_server.Tokens.Alphabet.{in_alphabet}
use clawclub_server.Mentions.Extract.{
  ExtractedMention, in_label, non_empty, match_mention, mention_text, is_exact_label, mention_at,
  take_match, scan_mentions, extract_mention_candidates,
}

-- What a match read of the text `s`.
IsMatch : (s : Text) (read : Text × Text × Text) → Type 0
IsMatch s (label, member_id, rest) =
    (s ≡ mention_text label member_id ++ rest)
    × AllOf in_label label
    × AllOf in_alphabet member_id
    × (length member_id ≡ 12)

matched :
    (s after_bracket label after_label after_bar member_id after_id rest : Text)
    → s ≡ codes "[" ++ after_bracket
    → (label ++ after_label ≡ after_bracket) × AllOf in_label label
    → after_label ≡ codes "|" ++ after_bar
    → (after_bar ≡ member_id ++ after_id) × AllOf in_alphabet member_id × (length member_id ≡ 12)
    → after_id ≡ codes "]" ++ rest
    → IsMatch s (label, member_id, rest)
unfolding IsMatch
matched s after_bracket label after_label after_bar member_id after_id rest e1 (e2, class) e3
      (e4, ids, count) e5 =
    (
      rw
          (
            e1,
            sym e2,
            e3,
            e4,
            e5,
            append_assoc label (codes "|" ++ (member_id ++ codes "]")) rest,
            append_assoc member_id (codes "]") rest,
          )
          refl,
      class,
      ids,
      count,
    )

match_mention-IsMatch :
    (s : Text) (read : Text × Text × Text) → match_mention s ≡ some read → IsMatch s read
unfolding match_mention
match_mention-IsMatch s read h =
    let (after_bracket, read_bracket, h1) = >>?-eq-some (strip_prefix (codes "[") s) _ h in
    let (_, filled, h2) = >>?-eq-some (non_empty (span in_label after_bracket).0) _ h1 in
    let (after_bar, read_bar, h3) =
      >>?-eq-some (strip_prefix (codes "|") (span in_label after_bracket).1) _ h2 in
    let ((member_id, after_id), read_id, h4) =
      >>?-eq-some (take_class in_alphabet 12 after_bar) _ h3 in
    let (rest, read_end, same) = >>?-eq-some (strip_prefix (codes "]") after_id) _ h4 in
    subst (IsMatch s) (some-injective _ _ same) (
      matched s after_bracket (span in_label after_bracket).0 (span in_label after_bracket).1
        after_bar member_id after_id rest (strip_prefix-eq-some _ _ _ read_bracket)
        (span-joins in_label after_bracket, span-AllOf in_label after_bracket)
        (strip_prefix-eq-some _ _ _ read_bar) (take_class-eq-some _ _ _ _ _ read_id)
        (strip_prefix-eq-some _ _ _ read_end))

-- Where a mention stands in `text`, and what it is made of.
abbrev IsMention : (text : Text) (m : ExtractedMention) → Type 0
IsMention text m =
    (before : Text) × (behind : Text) × (text ≡ before ++ (m.text ++ behind))
    × (m.start ≡ length before)
    × (m.end ≡ m.start + length m.text)
    × (m.text ≡ mention_text m.authored_label m.member_id)
    × AllOf in_label m.authored_label
    × (is_exact_label m.authored_label ≡ true)
    × AllOf in_alphabet m.member_id
    × (length m.member_id ≡ 12)

-- Each mention stands at `from` or later, and the ones behind it from its end on.
abbrev pub InOrder : (from : ℕ) (mentions : List ExtractedMention) → Type 0
InOrder from [] = Unit
InOrder from (m ∷ mentions) = (from ≤ m.start) × InOrder m.end mentions

-- All of the mentions stand in the text.
abbrev pub AreMentions : (text : Text) (mentions : List ExtractedMention) → Type 0
AreMentions text = All (IsMention text)

InOrder-mono :
    (from later : ℕ) (ms : List ExtractedMention)
    → from ≤ later
    → InOrder later ms
    → InOrder from ms
InOrder-mono from later [] h k = tt
InOrder-mono from later (m ∷ ms) h (k, ks) = (omega arith, ks)

-- A mention that was matched where `before` ends.
mention_at-IsMention :
    (text before s label member_id rest : Text) (index : ℕ)
    → text ≡ before ++ s
    → index ≡ length before
    → IsMatch s (label, member_id, rest)
    → is_exact_label label ≡ true
    → IsMention text (mention_at index label member_id)
unfolding IsMatch
mention_at-IsMention text before s label member_id rest index e at (e', class, ids, count) exact =
    (before, rest, e ∙ ap (λ t. before ++ t) e', at, refl, refl, class, exact, ids, count)

-- A list of mentions of `text`, in order from `from` on.
abbrev Found : (text : Text) (from : ℕ) (mentions : List ExtractedMention) → Type 0
Found text from mentions = AreMentions text mentions × InOrder from mentions

take_match-Found :
    (text before s : Text) (index : ℕ) (more : ℕ → List ExtractedMention)
    (found : Option (Text × Text × Text))
    → text ≡ before ++ s
    → index ≡ length before
    → ((read : Text × Text × Text) → found ≡ some read → IsMatch s read)
    → ((skip : ℕ) → Found text (index + 1 + skip) (more skip))
    → Found text index (take_match index more found)
unfolding take_match
take_match-Found text before s index more none e at reads rest =
    let (mentions, order) = rest 0 in
    (mentions, InOrder-mono index (index + 1 + 0) (more 0) (omega arith) order)
take_match-Found text before s index more (some (label, member_id, left)) e at reads rest =
    let (mentions, order) = rest (length (mention_text label member_id) - 1) in
    elim (Bool-cases (is_exact_label label)) [
      | inl exact ↦ rw exact (
        (
          mention_at-IsMention text before s label member_id left index e at
              (reads (label, member_id, left) refl) exact,
          mentions,
        ),
        (omega arith, InOrder-mono _ _ _ (omega arith) order),
      )
      | inr inexact ↦ rw inexact (mentions, InOrder-mono _ _ _ (omega arith) order)
    ]

module _ (text : Text) where
  -- The scan of what is left of the text, `s`, behind `before`.
  scan_mentions-Found :
      (skip index : ℕ) (before s : Text)
      → text ≡ before ++ s
      → index ≡ length before
      → Found text (index + skip) (scan_mentions skip index s)
  unfolding scan_mentions
  scan_mentions-Found skip index before [] e at = (tt, tt)
  scan_mentions-Found (suc skip) index before (c ∷ s) e at =
      let (mentions, order) =
        scan_mentions-Found skip (index + 1) (before ++ c ∷ []) s
          (e ∙ sym (append_assoc before (c ∷ []) s))
          (omega (arith, at, length-append before (c ∷ []))) in
      (mentions, InOrder-mono _ _ _ (omega arith) order)
  scan_mentions-Found zero index before (c ∷ s) e at =
      let (mentions, order) =
        take_match-Found text before (c ∷ s) index (λ skip. scan_mentions skip (index + 1) s)
          (match_mention (c ∷ s)) e at (match_mention-IsMatch (c ∷ s))
          (λ skip.
            scan_mentions-Found skip (index + 1) (before ++ c ∷ []) s
              (e ∙ sym (append_assoc before (c ∷ []) s))
              (omega (arith, at, length-append before (c ∷ [])))) in
      (mentions, InOrder-mono _ _ _ (omega arith) order)

-- Each mention that is extracted stands in the text at its span, character by character: a `[`, its
-- label, a `|`, its id of 12 characters of the alphabet and a `]`, where the label is visible, has no
-- white space round it and no bracket, bar or line break in it. The spans are in order and do not
-- overlap.
pub extract_mention_candidates-Found :
    (text : Text)
    → AreMentions text (extract_mention_candidates (some text))
      × InOrder 0 (extract_mention_candidates (some text))
unfolding extract_mention_candidates
extract_mention_candidates-Found text = elim (Bool-cases (any (λ c. c == 91) text)) [
  | inl brackets ↦ rw brackets (scan_mentions-Found text 0 0 [] text refl refl)
  | inr none_there ↦ rw none_there (tt, tt)
]
