-- ===== src/Tokens/RoundTrip.antt =====
-- What `parseBearerToken` reads of what `buildBearerToken` writes, and what else it reads.
use clawclub_server.Common.{
  ℕ, ◌≡◌, refl, ap, ◌∙◌, ◌↔◌, ◌⊎◌, inl, inr, true, Option, none, some, List, [], ◌∷◌, ◌++◌, arith,
  get_or, length, Option-cases, All-map, Text, codes, AllOf, is_solid, AllOf-append, trim-pad,
  strip_prefix, take_class, strip_prefix-append, strip_prefix-eq-some, take_class-append,
  take_class-eq-some, >>?-eq-some, at_end-eq-some, is_space, subst, append-nil, trim,
}
use clawclub_server.Tokens.Alphabet.{
  in_alphabet, all→AllOf, random_crockford_string, random_crockford_string-AllOf,
}
use clawclub_server.Tokens.Bearer.{
  token_id_length, token_secret_length, token_prefix, token_text, build_bearer_token,
  match_token_body, parse_prefixed_token, parse_bearer_token,
}

-- `n` characters of the alphabet.
abbrev IsPart : (n : ℕ) (s : Text) → Type 0
IsPart n s = AllOf in_alphabet s × (length s ≡ n)

-- A part that is given, or made of `n` random bytes.
abbrev IsGiven : (n : ℕ) (part : Option Text) (bytes : List ℕ) → Type 0
IsGiven n none bytes = length bytes ≡ n
IsGiven n (some part) bytes = IsPart n part

given-IsPart :
    (n : ℕ) (part : Option Text) (bytes : List ℕ)
    → IsGiven n part bytes
    → IsPart n (get_or part (random_crockford_string bytes))
given-IsPart n none bytes h =
    let (class, count) = random_crockford_string-AllOf bytes in (class, count ∙ h)
given-IsPart n (some part) bytes h = h

-- The text after the prefix and its separator.
abbrev body_text : (id secret : Text) → Text
body_text id secret = id ++ (codes "_" ++ secret)

match_token_body-body :
    (id secret : Text)
    → IsPart token_id_length id
    → IsPart token_secret_length secret
    → match_token_body (body_text id secret) ≡ some (id, secret)
unfolding match_token_body
match_token_body-body id secret (hi, li) (hs, ls) = simp (
  take_class-append in_alphabet id (codes "_" ++ secret) token_id_length hi li,
  strip_prefix-append (codes "_") secret,
  subst (λ s. take_class in_alphabet token_secret_length s ≡ some (secret, [])) (append-nil secret)
      (take_class-append in_alphabet secret [] token_secret_length hs ls),
)

abbrev ReadsAs : (body : Text) (token : Text × Text) → Type 0
ReadsAs body (id, secret) =
    (body ≡ body_text id secret) × IsPart token_id_length id × IsPart token_secret_length secret

read_as :
    (body id after_id part secret rest : Text)
    → (body ≡ id ++ after_id) × AllOf in_alphabet id × (length id ≡ token_id_length)
    → after_id ≡ codes "_" ++ part
    → (part ≡ secret ++ rest) × AllOf in_alphabet secret × (length secret ≡ token_secret_length)
    → rest ≡ []
    → ReadsAs body (id, secret)
read_as body id after_id part secret rest (e1, a1, l1) e2 (e3, a3, l3) e4 =
    (rw (e1, e2, e3, e4, append-nil secret) refl, (a1, l1), (a3, l3))

match_token_body-eq-some :
    (body : Text) (token : Text × Text) → match_token_body body ≡ some token → ReadsAs body token
unfolding match_token_body
match_token_body-eq-some body token h =
    let ((id, after_id), read_id, h1) = >>?-eq-some _ _ h in
    let (part, read_dash, h2) = >>?-eq-some _ _ h1 in
    let ((secret, rest), read_secret, h3) = >>?-eq-some _ _ h2 in
    let (same, ended) = at_end-eq-some _ _ rest h3 in
    subst (ReadsAs body) same (
      read_as body id after_id part secret rest (take_class-eq-some _ _ _ _ _ read_id)
        (strip_prefix-eq-some _ _ _ read_dash) (take_class-eq-some _ _ _ _ _ read_secret) ended)

-- Of a text with the current prefix, and of one with the older prefix.
parse_prefix :
    (prefix : Text) (body : Text)
    → (prefix ≡ token_prefix) ⊎ (prefix ≡ codes "cc_live")
    → parse_prefixed_token ((prefix ++ codes "_") ++ body) (token_prefix ∷ codes "cc_live" ∷ [])
      ≡ match_token_body body
unfolding parse_prefixed_token strip_prefix
parse_prefix prefix body (inl e) = rw e refl
parse_prefix prefix body (inr e) = rw e refl

in_alphabet-solid : (c : ℕ) → in_alphabet c ≡ true → is_solid c ≡ true
unfolding in_alphabet is_solid is_space
in_alphabet-solid c h = ground arith

AllOf-solid : (s : Text) → AllOf in_alphabet s → AllOf is_solid s
AllOf-solid s = All-map s in_alphabet-solid

token_text-solid :
    (id secret : Text)
    → IsPart token_id_length id
    → IsPart token_secret_length secret
    → AllOf is_solid (token_text token_prefix id secret)
unfolding is_solid is_space
token_text-solid id secret (hi, li) (hs, ls) =
    AllOf-append is_solid (token_prefix ++ codes "_") (body_text id secret)
      (all→AllOf is_solid (token_prefix ++ codes "_") refl)
      (AllOf-append is_solid id (codes "_" ++ secret) (AllOf-solid id hi)
        (refl, AllOf-solid secret hs))

abbrev pub Reads : (value : Text) (token : Text × Text) → Type 0
Reads value (id, secret) =
    IsPart token_id_length id
    × IsPart token_secret_length secret
    × ((trim value ≡ token_text token_prefix id secret)
        ⊎ (trim value ≡ token_text (codes "cc_live") id secret))

parse_bearer_token-read :
    (value id secret : Text)
    → Reads value (id, secret)
    → parse_bearer_token value ≡ some (id, secret)
unfolding parse_bearer_token
parse_bearer_token-read value id secret (hi, hs, inl e) = rw e (
    parse_prefix token_prefix (body_text id secret) (inl refl)
    ∙ match_token_body-body id secret hi hs)
parse_bearer_token-read value id secret (hi, hs, inr e) = rw e (
    parse_prefix (codes "cc_live") (body_text id secret) (inr refl)
    ∙ match_token_body-body id secret hi hs)

abbrev Among : (prefix : Text) (prefixes : List Text) → Type 0
Among prefix [] = ⊥
Among prefix (p ∷ prefixes) = (prefix ≡ p) ⊎ Among prefix prefixes

-- A token that is found stands behind one of the prefixes.
abbrev ReadBehind : (trimmed : Text) (prefixes : List Text) (token : Text × Text) → Type 0
ReadBehind trimmed prefixes token =
    (prefix : Text) × Among prefix prefixes
    × (trimmed ≡ token_text prefix token.0 token.1)
    × ReadsAs (body_text token.0 token.1) token

behind :
    (prefix trimmed body : Text) (token : Text × Text)
    → trimmed ≡ (prefix ++ codes "_") ++ body
    → ReadsAs body token
    → (trimmed ≡ token_text prefix token.0 token.1) × ReadsAs (body_text token.0 token.1) token
behind prefix trimmed body token e (r, hi, hs) = (rw (e, r) refl, (refl, hi, hs))

parse_prefixed_token-eq-some :
    (trimmed : Text) (prefixes : List Text) (token : Text × Text)
    → parse_prefixed_token trimmed prefixes ≡ some token
    → ReadBehind trimmed prefixes token
unfolding parse_prefixed_token
parse_prefixed_token-eq-some trimmed [] token h = cc
parse_prefixed_token-eq-some trimmed (prefix ∷ prefixes) token h =
    elim (Option-cases (strip_prefix (prefix ++ codes "_") trimmed)) [
      | inl e ↦
          let (p, among, text, read) =
            parse_prefixed_token-eq-some trimmed prefixes token
              (rw (e, parse_prefixed_token) at h) in
          (p, inr among, text, read)
      | inr (body, e) ↦
          let (text, read) =
            behind prefix trimmed body token (strip_prefix-eq-some _ _ _ e)
              (match_token_body-eq-some body token (rw (e, parse_prefixed_token) at h)) in
          (prefix, inl refl, text, read)
    ]

Among-known :
    (prefix trimmed id secret : Text)
    → Among prefix (token_prefix ∷ codes "cc_live" ∷ [])
    → trimmed ≡ token_text prefix id secret
    → (trimmed ≡ token_text token_prefix id secret)
      ⊎ (trimmed ≡ token_text (codes "cc_live") id secret)
Among-known prefix trimmed id secret (inl e) h = inl (h ∙ ap (λ p. token_text p id secret) e)
Among-known prefix trimmed id secret (inr (inl e)) h = inr (h ∙ ap (λ p. token_text p id secret) e)
Among-known prefix trimmed id secret (inr (inr e)) h = elim e [ ]

-- `parseBearerToken` reads a token id and a secret exactly if they have 12 and 24 characters of the
-- alphabet and the trimmed value is the current or the older prefix, the id and the secret, joined
-- by `_`.
pub parse_bearer_token-eq-some_iff :
    (value id secret : Text)
    → (parse_bearer_token value ≡ some (id, secret)) ↔ Reads value (id, secret)
unfolding parse_bearer_token
parse_bearer_token-eq-some_iff value id secret = (
  λ h.
      let (prefix, among, text, (_, hi, hs)) =
        parse_prefixed_token-eq-some (trim value) (token_prefix ∷ codes "cc_live" ∷ []) (id, secret)
          h in
      (hi, hs, Among-known prefix (trim value) id secret among text),
  parse_bearer_token-read value id secret,
)

-- A token that `buildBearerToken` makes of 12 and 24 random bytes, or of given parts with 12 and 24
-- characters of the alphabet, is read back as its id and its secret, with white space round it or
-- without.
pub parse_bearer_token-build_bearer_token :
    (hash : Text → Text) (id_part secret_part : Option Text) (id_bytes secret_bytes : List ℕ)
    (before behind_it : Text)
    → AllOf is_space before
    → AllOf is_space behind_it
    → IsGiven token_id_length id_part id_bytes
    → IsGiven token_secret_length secret_part secret_bytes
    → let token = build_bearer_token hash id_part secret_part id_bytes secret_bytes in
      parse_bearer_token (before ++ (token.bearer_token ++ behind_it))
      ≡ some (token.token_id, token.secret)
unfolding build_bearer_token
parse_bearer_token-build_bearer_token hash ip sp ib sb before behind_it hb ha gi gs =
    let pi = given-IsPart token_id_length ip ib gi in
    let ps = given-IsPart token_secret_length sp sb gs in
    parse_bearer_token-read _ _ _
      (pi, ps, inl (trim-pad before _ behind_it hb (token_text-solid _ _ pi ps) ha))
