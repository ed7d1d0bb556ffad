-- ===== src/Tokens/Invitations.antt =====
-- src/token.ts, the invitation codes. The bytes that the calls of `randomBytes(1)` return are a
-- list, and `toUpperCase` is a parameter: its tables beyond ASCII are those of Unicode.
use clawclub_server.Common.{
  ℕ, ◌-◌, Bool, false, ◌&&◌, ◌||◌, Option, none, some, List, [], ◌∷◌, ◌++◌, ltb, leb, ◌==◌,
  if◌then◌else◌, length, any, Text, codes, strip_prefix, take_class, ◌>>?◌ as ◌>>=◌, at_end, trim,
}
use clawclub_server.Tokens.Alphabet.{random_crockford_string}

abbrev pub invitation_code_length : ℕ
invitation_code_length = 8

abbrev pub invitation_code_alphabet : Text
invitation_code_alphabet = codes "ABCDEFGHJKMNPQRSTVWXYZ23456789"

unfoldable pub upper_ascii : ℕ → ℕ
upper_ascii c = if leb 97 c && leb c 122 then c - 32 else c

unfoldable pub is_ascii : ℕ → Bool
is_ascii c = ltb c 128

-- `[A-HJ-KM-NP-TV-Z2-9]`
unfoldable pub in_code_class : ℕ → Bool
in_code_class c =
    leb 65 c && leb c 72
    || leb 74 c && leb c 75
    || leb 77 c && leb c 78
    || leb 80 c && leb c 84
    || leb 86 c && leb c 90
    || leb 50 c && leb c 57

-- INVITATION_CODE_PATTERN
unfoldable pub match_code : Text → Option (Text × Text)
match_code text = do
  (first, after_first) ← take_class in_code_class 4 text
  second_part ← strip_prefix (codes "-") after_first
  (second, rest) ← take_class in_code_class 4 second_part
  at_end (first, second) rest

-- `text.includes(candidate)` of a candidate with one character.
unfoldable pub includes_char : (text candidate : Text) → Bool
includes_char text (c ∷ []) = any (λ d. d == c) text
includes_char text _ = false

-- `${raw.slice(0, 4)}-${raw.slice(4)}`
unfoldable pub with_dash : Text → Text
with_dash (a ∷ b ∷ c ∷ d ∷ rest) = a ∷ b ∷ c ∷ d ∷ (codes "-" ++ rest)
with_dash short = short ++ codes "-"

module _ (to_upper_case : Text → Text) where
  -- What one turn of the loop adds to `raw`.
  unfoldable pub drawn : (byte : ℕ) → Text
  unfolding random_crockford_string includes_char
  drawn byte =
      let candidate = to_upper_case (random_crockford_string (byte ∷ [])) in
      if includes_char invitation_code_alphabet candidate then candidate else []

  -- The loop: `none` when the list of bytes ends before it does.
  unfoldable pub draw_code : (raw : Text) (bytes : List ℕ) → Option Text
  unfolding drawn
  draw_code raw [] = if ltb (length raw) invitation_code_length then none else some raw
  draw_code raw (byte ∷ bytes) =
      let more = draw_code (raw ++ drawn byte) bytes in
      if ltb (length raw) invitation_code_length then more else some raw

  unfoldable pub build_invitation_code : (bytes : List ℕ) → Option Text
  unfolding draw_code with_dash
  build_invitation_code bytes = draw_code [] bytes >>= λ raw. some (with_dash raw)

  unfoldable pub normalize_invitation_code : Text → Option Text
  unfolding match_code
  normalize_invitation_code value =
      let normalized = to_upper_case (trim value) in
      match_code normalized >>= λ groups. some normalized
