-- ===== src/Streams/Cursors.antt =====
-- src/sse-resume.ts, and the cursors of src/schemas/fields.ts that it reads. JSON and base64url are
-- parameters.
use clawclub_server.Errors.{ErrorCode}
use clawclub_server.Common.{
  ℕ, Bool, true, not, Option, none, some, List, [], ◌∷◌, ◌++◌, leb, ◌==◌, if◌then◌else◌, get_or,
  length, Result, ok, err, or_throw, Text, text_eq, codes, strip_prefix, span, print_decimal,
  is_digit, value_from, is_canonical, ◌>>?◌ as ◌>>=◌, at_end,
}

-- Number.MAX_SAFE_INTEGER
abbrev pub max_safe_integer : ℕ
max_safe_integer = 9007199254740991

pub record StreamResumeCursor : Type 0 where
  pub activity_seq : Option ℕ
  pub inbox_seq : Option ℕ

-- `0|[1-9]\d*` at the start of the text, and the rest.
unfoldable pub match_number : Text → Option (Text × Text)
unfolding span is_digit is_canonical
match_number text =
    let (number, rest) = span is_digit text in
    if is_canonical number then some (number, rest) else none

-- DECIMAL_RE
unfoldable pub match_decimal : Text → Option Text
unfolding match_number
match_decimal text = do (number, rest) ← match_number text; at_end number rest

-- COMPOSITE_RE
unfoldable pub match_composite : Text → Option (Text × Text)
unfolding match_number
match_composite text = do
  after_a ← strip_prefix (codes "a") text
  (activity, after_activity) ← match_number after_a
  after_i ← strip_prefix (codes ":i") after_activity
  (inbox, rest) ← match_number after_i
  at_end (activity, inbox) rest

-- parseSafeNonNegativeInteger. A number beyond the safe ones is rounded to one beyond them.
unfoldable pub parse_safe_non_negative_integer : Text → Option ℕ
unfolding match_decimal
parse_safe_non_negative_integer raw = do
  number ← match_decimal raw
  if leb (value_from 0 number) max_safe_integer then some (value_from 0 number) else none

-- composeStreamResumeId
unfoldable pub compose_stream_resume_id : (activity_seq inbox_seq : Option ℕ) → Text
compose_stream_resume_id activity_seq inbox_seq =
    codes "a"
    ++ (print_decimal (get_or activity_seq 0) ++ (codes ":i" ++ print_decimal (get_or inbox_seq 0)))

-- Both numbers of a composite id are safe.
unfoldable pub read_composite : (activity inbox : Text) → Option StreamResumeCursor
unfolding parse_safe_non_negative_integer
read_composite activity inbox = parse_safe_non_negative_integer activity >>= λ a.
    parse_safe_non_negative_integer inbox >>= λ i.
    some (record { activity_seq = some a; inbox_seq = some i })

unfoldable pub read_activity : Option ℕ → Option StreamResumeCursor
read_activity none = none
read_activity (some seq) = some (record { activity_seq = some seq; inbox_seq = none })

abbrev pub latest : StreamResumeCursor
latest = record { activity_seq = none; inbox_seq = none }

-- What `Buffer` and `JSON` do with a cursor: `to_cursor` is `Buffer.from(JSON.stringify(parts))` in
-- base64url; `from_cursor` is the parsed array, in it `none` for what is no text, or `none` where
-- the code would throw.
pub record CursorCodec : Type 0 where
  pub to_cursor : List Text → Text
  pub from_cursor : Text → Option (List (Option Text))

-- The parts, if all of them are texts.
unfoldable pub all_texts : List (Option Text) → Option (List Text)
all_texts [] = some []
all_texts (none ∷ parts) = none
all_texts (some part ∷ parts) = all_texts parts >>= λ rest. some (part ∷ rest)

module _ (codec : CursorCodec) where
  -- encodeCursor
  unfoldable pub encode_cursor : (parts : List Text) → Text
  encode_cursor parts = codec.to_cursor parts

  -- decodeCursor: the error of one that is refused is invalid_input.
  unfoldable pub decode_cursor : (cursor : Text) (expected_parts : ℕ) → Result (List Text)
  unfolding all_texts
  decode_cursor cursor expected_parts =
      or_throw
        (codec.from_cursor cursor >>= λ parts.
          (if length parts == expected_parts then some parts else none) >>= all_texts)
        ErrorCode.invalid_input

  -- The `try` at the end of `parseStreamResumeId`.
  unfoldable pub read_legacy : (decoded : Result (List Text)) → Option StreamResumeCursor
  unfolding read_activity parse_safe_non_negative_integer
  read_legacy (err code) = none
  read_legacy (ok []) = none
  read_legacy (ok (raw_seq ∷ parts)) = read_activity (parse_safe_non_negative_integer raw_seq)

  unfoldable pub parse_stream_resume_id :
      (value : Option Text) (allow_legacy_activity_cursor : Bool) → Option StreamResumeCursor
  unfolding match_composite read_composite read_legacy decode_cursor
  parse_stream_resume_id none allow = some latest
  parse_stream_resume_id (some value) allow =
      if text_eq value (codes "latest") then some latest else elim (match_composite value) [
        | some (activity, inbox) ↦ read_composite activity inbox
        | none ↦ if not allow then none else elim (match_decimal value) [
          | some number ↦ read_activity (parse_safe_non_negative_integer value)
          | none ↦ read_legacy (decode_cursor value 1)
        ]
      ]

  unfoldable pub parse_required_stream_resume_id : (value : Text) → Result StreamResumeCursor
  unfolding parse_stream_resume_id
  parse_required_stream_resume_id value =
      or_throw (parse_stream_resume_id (some value) true) ErrorCode.invalid_input

  unfoldable pub encode_legacy_activity_cursor : (seq : Option ℕ) → Option Text
  unfolding encode_cursor
  encode_legacy_activity_cursor none = none
  encode_legacy_activity_cursor (some seq) = some (encode_cursor (print_decimal seq ∷ []))
