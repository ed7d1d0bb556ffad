-- ===== src/Streams/Resume.antt =====
-- What `parseStreamResumeId` reads of what is printed as a resume id, and what else it reads.
use clawclub_server.Common.{
  ℕ, ◌≤◌, ◌≡◌, refl, sym, ap, ◌∙◌, ◌⊎◌, inl, inr, Bool, true, false, Option, none, some, List, [],
  ◌∷◌, ◌++◌, map, arith, get_or, All, ok, Bool-cases, Option-cases, Text, text_eq, text_eq_iff,
  codes, AllOf, strip_prefix, span, strip_prefix-eq-some, span-append, span-joins, span-AllOf,
  print_decimal, is_digit, value_from, is_canonical, value_from-print_decimal, print_decimal-AllOf,
  is_canonical-print_decimal, print_decimal-canonical, >>?-eq-some, at_end-eq-some, subst,
  append-nil,
}
use mathlib.Core.Option.{some-injective}
use clawclub_server.Streams.Cursors.{
  max_safe_integer, StreamResumeCursor, match_number, match_decimal, match_composite,
  parse_safe_non_negative_integer, compose_stream_resume_id, read_composite, read_activity, latest,
  CursorCodec, all_texts, encode_cursor, decode_cursor, read_legacy, parse_stream_resume_id,
  encode_legacy_activity_cursor,
}

match_number-print_decimal :
    (n : ℕ) (rest : Text)
    → (span is_digit rest).0 ≡ []
    → (span is_digit rest).1 ≡ rest
    → match_number (print_decimal n ++ rest) ≡ some (print_decimal n, rest)
unfolding match_number
match_number-print_decimal n rest e f =
    rw
      (
        span-append is_digit (print_decimal n) rest (print_decimal-AllOf n) e f,
        is_canonical-print_decimal n,
      )
      refl

match_decimal-print_decimal : (n : ℕ) → match_decimal (print_decimal n) ≡ some (print_decimal n)
unfolding match_decimal span
match_decimal-print_decimal n =
    rw
      (subst (λ s. match_number s ≡ some (print_decimal n, [])) (append-nil (print_decimal n))
        (match_number-print_decimal n [] refl refl))
      refl

parse_safe-print_decimal :
    (n : ℕ) → n ≤ max_safe_integer → parse_safe_non_negative_integer (print_decimal n) ≡ some n
unfolding parse_safe_non_negative_integer
parse_safe-print_decimal n h =
    rw (match_decimal-print_decimal n, value_from-print_decimal n) (ground arith)

match_composite-compose :
    (a i : ℕ)
    → match_composite (codes "a" ++ (print_decimal a ++ (codes ":i" ++ print_decimal i)))
      ≡ some (print_decimal a, print_decimal i)
unfolding match_composite strip_prefix span is_digit
match_composite-compose a i =
    rw
      (
        match_number-print_decimal a (codes ":i" ++ print_decimal i) refl refl,
        subst (λ s. match_number s ≡ some (print_decimal i, [])) (append-nil (print_decimal i))
            (match_number-print_decimal i [] refl refl),
      )
      refl

unfoldable pub IsSafe : Option ℕ → Type 0
IsSafe none = Unit
IsSafe (some n) = n ≤ max_safe_integer

IsSafe-get_or : (n : Option ℕ) → IsSafe n → get_or n 0 ≤ max_safe_integer
unfolding IsSafe
IsSafe-get_or none h = omega arith
IsSafe-get_or (some n) h = h

abbrev IsNumber : (text : Text) (read : Text × Text) → Type 0
IsNumber text (number, rest) =
    (text ≡ number ++ rest) × AllOf is_digit number × (is_canonical number ≡ true)

match_number-eq-some :
    (text : Text) (read : Text × Text) → match_number text ≡ some read → IsNumber text read
unfolding match_number
match_number-eq-some text read h = elim (Bool-cases (is_canonical (span is_digit text).0)) [
  | inl canonical ↦
      subst (IsNumber text) (some-injective _ _ (rw (canonical, match_number) at h))
        (sym (span-joins is_digit text), span-AllOf is_digit text, canonical)
  | inr other ↦ absurd (let none_read = (rw (other, match_number) at h) in ground arith)
]

PrintsAs : (raw : Text) (n : ℕ) → Type 0
PrintsAs raw n = (raw ≡ print_decimal n) × (n ≤ max_safe_integer)

decimal_text :
    (raw number same rest : Text)
    → IsNumber raw (number, rest)
    → number ≡ same
    → rest ≡ []
    → raw ≡ print_decimal (value_from 0 same)
decimal_text raw number same rest (e, class, canonical) e1 e2 =
    rw (e, e2, append-nil number, sym (print_decimal-canonical number class canonical))
      (ap (λ x. print_decimal (value_from 0 x)) e1)

match_decimal-eq-some :
    (raw number : Text)
    → match_decimal raw ≡ some number
    → raw ≡ print_decimal (value_from 0 number)
unfolding match_decimal
match_decimal-eq-some raw number h =
    let ((number', rest), read, h1) = >>?-eq-some (match_number raw) _ h in
    let (same, ended) = at_end-eq-some number' number rest h1 in
    decimal_text raw number' number rest (match_number-eq-some raw (number', rest) read) same ended

parse_safe-eq-some :
    (raw : Text) (n : ℕ) → parse_safe_non_negative_integer raw ≡ some n → PrintsAs raw n
unfolding parse_safe_non_negative_integer PrintsAs
parse_safe-eq-some raw n h =
    let (number, read, h1) = >>?-eq-some (match_decimal raw) _ h in
    let e = match_decimal-eq-some raw number read in
    let value : value_from 0 number ≡ n = ground (arith, h1) in
    (e ∙ ap print_decimal value, ground (arith, h1))

abbrev composite_text : (read : Text × Text) → Text
composite_text (activity, inbox) = codes "a" ++ (activity ++ (codes ":i" ++ inbox))

joined_composite :
    (text after_a activity after_activity after_i inbox rest : Text)
    → text ≡ codes "a" ++ after_a
    → after_a ≡ activity ++ after_activity
    → after_activity ≡ codes ":i" ++ after_i
    → after_i ≡ inbox ++ rest
    → rest ≡ []
    → text ≡ composite_text (activity, inbox)
joined_composite text after_a activity after_activity after_i inbox rest e1 e2 e3 e4 e5 =
    rw (e1, e2, e3, e4, e5, append-nil inbox) refl

match_composite-eq-some :
    (text : Text) (read : Text × Text)
    → match_composite text ≡ some read
    → text ≡ composite_text read
unfolding match_composite
match_composite-eq-some text read h =
    let (after_a, read_a, h1) = >>?-eq-some (strip_prefix (codes "a") text) _ h in
    let ((activity, after_activity), read_activity_number, h2) =
      >>?-eq-some (match_number after_a) _ h1 in
    let (after_i, read_i, h3) = >>?-eq-some (strip_prefix (codes ":i") after_activity) _ h2 in
    let ((inbox, rest), read_inbox, h4) = >>?-eq-some (match_number after_i) _ h3 in
    let (same, ended) = at_end-eq-some (activity, inbox) read rest h4 in
    subst (λ r. text ≡ composite_text r) same
      (joined_composite text after_a activity after_activity after_i inbox rest
        (strip_prefix-eq-some _ _ _ read_a)
        (match_number-eq-some after_a (activity, after_activity) read_activity_number).0
        (strip_prefix-eq-some _ _ _ read_i)
        (match_number-eq-some after_i (inbox, rest) read_inbox).0 ended)

-- The cursor of two safe numbers, and its id.
pub IsComposite : (value : Text) (cursor : StreamResumeCursor) → Type 0
IsComposite value cursor =
    (a : ℕ) × (i : ℕ) × (a ≤ max_safe_integer)
    × (i ≤ max_safe_integer)
    × (cursor ≡ record { activity_seq = some a; inbox_seq = some i })
    × (value ≡ compose_stream_resume_id (some a) (some i))

composed :
    (value activity inbox : Text) (a i : ℕ)
    → value ≡ composite_text (activity, inbox)
    → activity ≡ print_decimal a
    → inbox ≡ print_decimal i
    → value ≡ compose_stream_resume_id (some a) (some i)
unfolding compose_stream_resume_id
composed value activity inbox a i e ea ei = rw (e, ea, ei) refl

read_composite-eq-some :
    (value activity inbox : Text) (cursor : StreamResumeCursor)
    → value ≡ composite_text (activity, inbox)
    → read_composite activity inbox ≡ some cursor
    → IsComposite value cursor
unfolding read_composite IsComposite PrintsAs compose_stream_resume_id
read_composite-eq-some value activity inbox cursor e h =
    let (a, read_a, h1) = >>?-eq-some (parse_safe_non_negative_integer activity) _ h in
    let (i, read_i, h2) = >>?-eq-some (parse_safe_non_negative_integer inbox) _ h1 in
    let (ea, la) = parse_safe-eq-some activity a read_a in
    let (ei, li) = parse_safe-eq-some inbox i read_i in
    (a, i, la, li, sym (some-injective _ _ h2), composed value activity inbox a i e ea ei)

module _ (codec : CursorCodec) where
  -- An id that `composeStreamResumeId` prints of safe numbers is read as these numbers, whether or
  -- not the older cursors are allowed; a missing number is read as 0.
  pub parse_stream_resume_id-compose_stream_resume_id :
      (activity_seq inbox_seq : Option ℕ) (allow : Bool)
      → IsSafe activity_seq
      → IsSafe inbox_seq
      → parse_stream_resume_id codec (some (compose_stream_resume_id activity_seq inbox_seq)) allow
        ≡ some (record {
          activity_seq = some (get_or activity_seq 0);
          inbox_seq = some (get_or inbox_seq 0);
        })
  unfolding parse_stream_resume_id compose_stream_resume_id text_eq read_composite
  parse_stream_resume_id-compose_stream_resume_id a i allow ha hi =
      rw
        (
          match_composite-compose (get_or a 0) (get_or i 0),
          parse_safe-print_decimal (get_or a 0) (IsSafe-get_or a ha),
          parse_safe-print_decimal (get_or i 0) (IsSafe-get_or i hi),
        )
        refl

  -- Without the older cursors the only ids that are read are `latest` and those that
  -- `composeStreamResumeId` prints of two safe numbers: no cursor has a second id.
  pub parse_stream_resume_id-eq-some :
      (value : Text) (cursor : StreamResumeCursor)
      → parse_stream_resume_id codec (some value) false ≡ some cursor
      → ((value ≡ codes "latest") × (cursor ≡ latest)) ⊎ IsComposite value cursor
  unfolding parse_stream_resume_id
  parse_stream_resume_id-eq-some value cursor h =
      elim (Bool-cases (text_eq value (codes "latest"))) [
        | inl is_latest ↦ inl (
          (text_eq_iff value (codes "latest")).0 is_latest,
          sym (some-injective _ _ (rw (is_latest, parse_stream_resume_id) at h)),
        )
        | inr other ↦ elim (Option-cases (match_composite value)) [
          | inl e ↦ absurd (let unread = rw (other, e, parse_stream_resume_id) at h in ground arith)
          | inr (read, e) ↦ inr (
              read_composite-eq-some value read.0 read.1 cursor
                (match_composite-eq-some value read e) (rw (other, e, parse_stream_resume_id) at h))
        ]
      ]

-- What JSON and base64url do with texts of digits: they are read back, and a JSON array, whose text
-- starts with `[`, starts with `W` in base64url.
pub record ReadsBack (codec : CursorCodec) : Type 0 where
  pub from_cursor-to_cursor :
      (parts : List Text)
      → All (AllOf is_digit) parts
      → codec.from_cursor (codec.to_cursor parts) ≡ some (map some parts)
  pub to_cursor_start :
      (parts : List Text) → (rest : Text) × (codec.to_cursor parts ≡ codes "W" ++ rest)

IsOther : (value : Text) → Type 0
IsOther value =
    (text_eq value (codes "latest") ≡ false)
    × (match_composite value ≡ none)
    × (match_decimal value ≡ none)

behind_w : (rest : Text) → IsOther (codes "W" ++ rest)
unfolding IsOther text_eq match_composite strip_prefix match_decimal match_number span is_digit
    is_canonical
behind_w rest = (refl, refl, refl)

encode_cursor-IsOther :
    (codec : CursorCodec) (parts : List Text) (rest : Text)
    → codec.to_cursor parts ≡ codes "W" ++ rest
    → IsOther (encode_cursor codec parts)
unfolding encode_cursor
encode_cursor-IsOther codec parts rest e = subst IsOther (sym e) (behind_w rest)

module _ (codec : CursorCodec) (laws : ReadsBack codec) where
  decode_legacy :
      (seq : ℕ)
      → decode_cursor codec (encode_cursor codec (print_decimal seq ∷ [])) 1
        ≡ ok (print_decimal seq ∷ [])
  unfolding decode_cursor encode_cursor all_texts
  decode_legacy seq =
      rw (laws.from_cursor-to_cursor (print_decimal seq ∷ []) (print_decimal-AllOf seq, tt)) refl

  -- The cursor of an older client, made of the safe number of an activity, is read as this number,
  -- with no number of the inbox.
  pub parse_stream_resume_id-encode_legacy_activity_cursor :
      (seq : ℕ)
      → seq ≤ max_safe_integer
      → (cursor : Text) × (encode_legacy_activity_cursor codec (some seq) ≡ some cursor)
        × (parse_stream_resume_id codec (some cursor) true
            ≡ some (record { activity_seq = some seq; inbox_seq = none }))
  unfolding parse_stream_resume_id encode_legacy_activity_cursor read_legacy read_activity IsOther
  parse_stream_resume_id-encode_legacy_activity_cursor seq safe =
      let (rest, e) = laws.to_cursor_start (print_decimal seq ∷ []) in
      let (unlike, no_composite, no_decimal) =
        encode_cursor-IsOther codec (print_decimal seq ∷ []) rest e in
      (
        encode_cursor codec (print_decimal seq ∷ []),
        refl,
        rw (unlike, no_composite, no_decimal, decode_legacy seq, parse_safe-print_decimal seq safe)
            refl,
      )
