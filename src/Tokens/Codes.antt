-- ===== src/Tokens/Codes.antt =====
-- The invitation codes that are built, and how they are read again.
use clawclub_server.Common.{
  ℕ, ◌+◌, ◌%◌, ◌≤◌, ◌<◌, ◌≡◌, refl, sym, ap, ◌∙◌, inl, inr, Bool, true, false, not, ◌&&◌, ◌||◌,
  some, List, [], ◌∷◌, ◌++◌, map, arith, ltb, ◌==◌, if◌then◌else◌, length, count_by, Bool-cases,
  ltb→lt, length-append, All-map, Text, codes, AllOf, is_solid, AllOf-append, trim-pad, take_class,
  strip_prefix-append, take_class-append, >>?-eq-some, is_space, subst, append-nil,
}
use clawclub_server.Tokens.Alphabet.{
  alphabet, all, all→AllOf, char_at, random_crockford_string, all_below, all_below→,
}
use clawclub_server.Tokens.Invitations.{
  invitation_code_length, invitation_code_alphabet, upper_ascii, is_ascii, in_code_class,
  match_code, includes_char, with_dash, drawn, draw_code, build_invitation_code,
  normalize_invitation_code,
}
use mathlib.Core.Option.{some-injective}

-- What JavaScript says of `toUpperCase` on ASCII texts.
abbrev UppersAscii : (to_upper_case : Text → Text) → Type 0
UppersAscii to_upper_case = (s : Text) → AllOf is_ascii s → to_upper_case s ≡ map upper_ascii s

-- The bytes that do not pick the letter `u`, which no code has.
unfoldable pub is_accepted : (byte : ℕ) → Bool
is_accepted byte = not (byte % length alphabet == 25)

picked : (index : ℕ) → Text
picked index =
    let candidate = map upper_ascii (char_at alphabet index ++ []) in
    if includes_char invitation_code_alphabet candidate then candidate else []

is_fine : (index : ℕ) → Bool
is_fine i =
    all is_ascii (char_at alphabet i ++ [])
    && (all in_code_class (picked i) && (length (picked i) == (if not (i == 25) then 1 else 0)))

picked_table : all_below 31 is_fine ≡ true
unfolding is_fine picked includes_char in_code_class upper_ascii is_ascii
picked_table = refl

IsPicked : (index : ℕ) (text : Text) → Type 0
IsPicked index text =
    AllOf in_code_class text × (length text ≡ (if not (index == 25) then 1 else 0))

picked_lem : (i : ℕ) → i < 31 → AllOf is_ascii (char_at alphabet i ++ []) × IsPicked i (picked i)
unfolding IsPicked is_fine
picked_lem i lt =
    let table : is_fine i ≡ true = all_below→ 31 is_fine i picked_table lt in
    (
      all→AllOf is_ascii _ (ground (arith, table)),
      (all→AllOf in_code_class _ (ground (arith, table)), ground (arith, table)),
    )

-- Four characters, a dash, and four characters.
IsCode : (code : Text) → Type 0
IsCode code =
    (first : Text) × (second : Text) × (code ≡ first ++ (codes "-" ++ second))
    × (AllOf in_code_class first × (length first ≡ 4))
    × AllOf in_code_class second
    × (length second ≡ 4)

match_code-IsCode :
    (code : Text) → IsCode code → (groups : Text × Text) × (match_code code ≡ some groups)
unfolding match_code IsCode
match_code-IsCode code (first, second, e, (h1, l1), h2, l2) = (
  (first, second),
  rw e (
      simp (
        take_class-append in_code_class first (codes "-" ++ second) 4 h1 l1,
        strip_prefix-append (codes "-") second,
        subst (λ s. take_class in_code_class 4 s ≡ some (second, [])) (append-nil second)
            (take_class-append in_code_class second [] 4 h2 l2),
      )),
)

with_dash-IsCode :
    (raw : Text)
    → AllOf in_code_class raw
    → length raw ≡ invitation_code_length
    → IsCode (with_dash raw)
unfolding IsCode with_dash
with_dash-IsCode (a ∷ b ∷ c ∷ d ∷ rest) (ha, (hb, (hc, (hd, hr)))) e =
    (a ∷ b ∷ c ∷ d ∷ [], rest, refl, ((ha, (hb, (hc, (hd, tt)))), refl), hr, omega arith)
with_dash-IsCode [] h e = absurd (omega arith)
with_dash-IsCode (a ∷ []) h e = absurd (omega arith)
with_dash-IsCode (a ∷ b ∷ []) h e = absurd (omega arith)
with_dash-IsCode (a ∷ b ∷ c ∷ []) h e = absurd (omega arith)

in_code_text : ℕ → Bool
in_code_text c = in_code_class c || c == 45

IsCode-AllOf : (code : Text) → IsCode code → AllOf in_code_text code
unfolding IsCode in_code_text
IsCode-AllOf code (first, second, e, (h1, _), h2, _) = rw e (
    AllOf-append in_code_text first (codes "-" ++ second)
      (All-map first (λ c h. ground (arith, h)) h1)
      (ground arith, All-map second (λ c h. ground (arith, h)) h2))

typed_char :
    (c : ℕ) → in_code_text (upper_ascii c) ≡ true → (is_ascii c ≡ true) × (is_solid c ≡ true)
unfolding in_code_text in_code_class upper_ascii is_ascii is_solid is_space
typed_char c h = (ground arith, ground arith)

typed_text :
    (typed : Text)
    → AllOf in_code_text (map upper_ascii typed)
    → AllOf is_ascii typed × AllOf is_solid typed
typed_text [] h = (tt, tt)
typed_text (c ∷ typed) (h, hs) =
    let (ascii, solid) = typed_char c h in
    let (all_ascii, all_solid) = typed_text typed hs in ((ascii, all_ascii), (solid, all_solid))

drawn_all :
    (raw code : Text)
    → AllOf in_code_class raw
    → length raw ≤ invitation_code_length
    → ltb (length raw) invitation_code_length ≡ false
    → some raw ≡ some code
    → AllOf in_code_class code × (length code ≡ invitation_code_length)
drawn_all raw code all_raw l long h =
    subst (λ (c : Text). AllOf in_code_class c × (length c ≡ invitation_code_length))
      (some-injective _ _ h) (all_raw, ground arith)

module _ (to_upper_case : Text → Text) (uppers : UppersAscii to_upper_case) where
  drawn_lem :
      (byte : ℕ)
      → AllOf in_code_class (drawn to_upper_case byte)
        × (length (drawn to_upper_case byte) ≡ (if is_accepted byte then 1 else 0))
  unfolding drawn picked random_crockford_string is_accepted IsPicked
  drawn_lem byte =
      let (ascii, fine) = picked_lem (byte % length alphabet) (omega arith) in
      rw (uppers (char_at alphabet (byte % length alphabet) ++ []) ascii) fine

  draw_code-eq-some :
      (bytes : List ℕ) (raw code : Text)
      → AllOf in_code_class raw
      → length raw ≤ invitation_code_length
      → draw_code to_upper_case raw bytes ≡ some code
      → AllOf in_code_class code × (length code ≡ invitation_code_length)
  unfolding draw_code
  draw_code-eq-some [] raw code all_raw l h =
      elim (Bool-cases (ltb (length raw) invitation_code_length)) [
        | inl short ↦ absurd (ground (arith, short))
        | inr long ↦ drawn_all raw code all_raw l long (rw (long, draw_code) at h)
      ]
  draw_code-eq-some (byte ∷ bytes) raw code all_raw l h =
      elim (Bool-cases (ltb (length raw) invitation_code_length)) [
        | inl short ↦
            let (class, one) = drawn_lem byte in
            draw_code-eq-some bytes (raw ++ drawn to_upper_case byte) code
              (AllOf-append in_code_class raw (drawn to_upper_case byte) all_raw class)
              (ground (arith, one, length-append raw (drawn to_upper_case byte), ltb→lt _ _ short))
              (rw (short, draw_code) at h)
        | inr long ↦ drawn_all raw code all_raw l long (rw (long, draw_code) at h)
      ]

  draw_code-enough :
      (bytes : List ℕ) (raw : Text)
      → invitation_code_length ≤ length raw + count_by is_accepted bytes
      → (code : Text) × (draw_code to_upper_case raw bytes ≡ some code)
  unfolding draw_code
  draw_code-enough [] raw h = (raw, ground arith)
  draw_code-enough (byte ∷ bytes) raw h =
      elim (Bool-cases (ltb (length raw) invitation_code_length)) [
        | inl short ↦
            let (code, e) =
              draw_code-enough bytes (raw ++ drawn to_upper_case byte) (
                ground (arith, (drawn_lem byte).1, length-append raw (drawn to_upper_case byte))) in
            (code, rw short e)
        | inr long ↦ (raw, rw long refl)
      ]

  build_invitation_code-IsCode :
      (bytes : List ℕ) (code : Text)
      → build_invitation_code to_upper_case bytes ≡ some code
      → IsCode code
  unfolding build_invitation_code
  build_invitation_code-IsCode bytes code h =
      let (raw, drew, e) = >>?-eq-some (draw_code to_upper_case [] bytes) _ h in
      let (class, count) = draw_code-eq-some bytes [] raw tt (omega arith) drew in
      subst IsCode (some-injective _ _ e) (with_dash-IsCode raw class count)

  normalize_invitation_code-typed :
      (typed before behind : Text)
      → AllOf is_space before
      → AllOf is_space behind
      → IsCode (map upper_ascii typed)
      → normalize_invitation_code to_upper_case (before ++ (typed ++ behind))
        ≡ some (map upper_ascii typed)
  unfolding normalize_invitation_code
  normalize_invitation_code-typed typed before behind hb ha code =
      let (ascii, solid) = typed_text typed (IsCode-AllOf (map upper_ascii typed) code) in
      let (groups, matched) = match_code-IsCode (map upper_ascii typed) code in
      rw (trim-pad before typed behind hb solid ha, uppers typed ascii, matched) refl

  -- A code that `buildInvitationCode` made is recognised, and gives the code again, however it is
  -- typed: in capital or in small letters, with white space round it or without.
  pub normalize_invitation_code-build_invitation_code :
      (bytes : List ℕ) (code typed before behind : Text)
      → build_invitation_code to_upper_case bytes ≡ some code
      → map upper_ascii typed ≡ code
      → AllOf is_space before
      → AllOf is_space behind
      → normalize_invitation_code to_upper_case (before ++ (typed ++ behind)) ≡ some code
  normalize_invitation_code-build_invitation_code bytes code typed before behind built same hb ha =
      normalize_invitation_code-typed typed before behind hb ha
        (subst IsCode (sym same) (build_invitation_code-IsCode bytes code built))
      ∙ ap some same

  -- The loop of `buildInvitationCode` ends: as soon as eight of the random bytes pick another letter
  -- than `u` there is a code.
  pub build_invitation_code-total :
      (bytes : List ℕ)
      → invitation_code_length ≤ count_by is_accepted bytes
      → (code : Text) × (build_invitation_code to_upper_case bytes ≡ some code)
  unfolding build_invitation_code
  build_invitation_code-total bytes h =
      let (raw, e) = draw_code-enough bytes [] (omega arith) in (with_dash raw, rw e refl)
