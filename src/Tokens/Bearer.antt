-- ===== src/Tokens/Bearer.antt =====
-- src/token.ts, the bearer tokens. The hash of a secret is a parameter, and the bytes that
-- `randomBytes` returns are arguments.
use clawclub_server.Common.{
  ℕ, Option, none, some, List, [], ◌∷◌, ◌++◌, get_or, Text, codes, strip_prefix, take_class,
  ◌>>?◌ as ◌>>=◌, at_end, trim,
}
use clawclub_server.Tokens.Alphabet.{in_alphabet, random_crockford_string}

abbrev pub token_id_length : ℕ
token_id_length = 12

abbrev pub token_secret_length : ℕ
token_secret_length = 24

abbrev pub token_prefix : Text
token_prefix = codes "clawclub"

abbrev legacy_bearer_token_prefixes : List Text
legacy_bearer_token_prefixes = codes "cc_live" ∷ []

pub record BearerToken : Type 0 where
  pub token_id : Text
  pub secret : Text
  pub bearer_token : Text
  pub token_hash : Text

-- `${prefix}_${tokenId}_${secret}`
abbrev pub token_text : (prefix token_id secret : Text) → Text
token_text prefix token_id secret = (prefix ++ codes "_") ++ (token_id ++ (codes "_" ++ secret))

-- hashTokenSecret is `hash`.
unfoldable pub build_bearer_token :
    (hash : Text → Text) (id_part secret_part : Option Text) (id_bytes secret_bytes : List ℕ)
    → BearerToken
build_bearer_token hash id_part secret_part id_bytes secret_bytes =
    let id = get_or id_part (random_crockford_string id_bytes) in
    let secret_text = get_or secret_part (random_crockford_string secret_bytes) in
    record {
      token_id = id;
      secret = secret_text;
      bearer_token = token_text token_prefix id secret_text;
      token_hash = hash secret_text;
    }

-- TOKEN_BODY_PATTERN
unfoldable pub match_token_body : Text → Option (Text × Text)
match_token_body body = do
  (id, after_id) ← take_class in_alphabet token_id_length body
  secret_part ← strip_prefix (codes "_") after_id
  (secret, rest) ← take_class in_alphabet token_secret_length secret_part
  at_end (id, secret) rest

unfoldable pub parse_prefixed_token : (trimmed : Text) (prefixes : List Text) → Option (Text × Text)
unfolding match_token_body
parse_prefixed_token trimmed [] = none
parse_prefixed_token trimmed (prefix ∷ prefixes) =
    elim (strip_prefix (prefix ++ codes "_") trimmed) [
      | none ↦ parse_prefixed_token trimmed prefixes
      | some body ↦ match_token_body body
    ]

unfoldable pub parse_bearer_token : Text → Option (Text × Text)
unfolding parse_prefixed_token
parse_bearer_token value =
    parse_prefixed_token (trim value) (token_prefix ∷ legacy_bearer_token_prefixes)
