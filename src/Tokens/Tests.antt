-- ===== src/Tokens/Tests.antt =====
-- The tokens and the invitation codes on concrete bytes.
use clawclub_server.Common.{
  ℕ, ◌≡◌, refl, ◌↔◌, none, some, List, [], ◌∷◌, ◌++◌, map, arith, Text, codes, strip_prefix,
  take_class, is_space, trim,
}
use clawclub_server.Tokens.Alphabet.{in_alphabet, random_crockford_string}
use clawclub_server.Tokens.Bearer.{BearerToken, build_bearer_token, parse_bearer_token}
use clawclub_server.Tokens.Invitations.{
  build_invitation_code, normalize_invitation_code, upper_ascii,
}
use clawclub_server.Tokens.RoundTrip.{
  Reads, parse_bearer_token-eq-some_iff, parse_bearer_token-build_bearer_token,
}
use clawclub_server.Tokens.Codes.{
  is_accepted, normalize_invitation_code-build_invitation_code, build_invitation_code-total,
}

abbrev same_hash : Text → Text
same_hash secret = secret

abbrev id_bytes : List ℕ
id_bytes = 0 ∷ 31 ∷ 62 ∷ 3 ∷ 4 ∷ 5 ∷ 6 ∷ 7 ∷ 8 ∷ 9 ∷ 10 ∷ 255 ∷ []

abbrev secret_bytes : List ℕ
secret_bytes = id_bytes ++ id_bytes

abbrev made_token : BearerToken
made_token = build_bearer_token same_hash none none id_bytes secret_bytes

made_text : made_token.bearer_token ≡ codes "clawclub_22256789abc9_22256789abc922256789abc9"
unfolding build_bearer_token random_crockford_string
made_text = refl

parse_bearer_token-build_bearer_token_example :
    parse_bearer_token (codes " " ++ (made_token.bearer_token ++ codes "  "))
    ≡ some (made_token.token_id, made_token.secret)
unfolding is_space
parse_bearer_token-build_bearer_token_example =
    parse_bearer_token-build_bearer_token same_hash none none id_bytes secret_bytes (codes " ")
      (codes "  ") (refl, tt) (refl, (refl, tt)) refl refl

-- The older prefix, and a secret that is one character short.
abbrev legacy_text : Text
legacy_text = codes "cc_live_222222222222_abcdefghjkmnabcdefghjkmn"

parse_bearer_token-eq-some_iff_example :
    (parse_bearer_token legacy_text ≡ some (codes "222222222222", codes "abcdefghjkmnabcdefghjkmn"))
    ↔ Reads legacy_text (codes "222222222222", codes "abcdefghjkmnabcdefghjkmn")
parse_bearer_token-eq-some_iff_example =
    parse_bearer_token-eq-some_iff legacy_text (codes "222222222222")
      (codes "abcdefghjkmnabcdefghjkmn")

parse_legacy :
    parse_bearer_token legacy_text ≡ some (codes "222222222222", codes "abcdefghjkmnabcdefghjkmn")
unfolding parse_bearer_token trim is_space take_class strip_prefix in_alphabet
parse_legacy = refl

parse_short : parse_bearer_token (codes "clawclub_222222222222_abc") ≡ none
unfolding parse_bearer_token trim is_space take_class strip_prefix in_alphabet
parse_short = refl

abbrev upper : Text → Text
upper = map upper_ascii

abbrev code_bytes : List ℕ
code_bytes = 25 ∷ 8 ∷ 9 ∷ 10 ∷ 11 ∷ 56 ∷ 0 ∷ 1 ∷ 2 ∷ 3 ∷ []

build_code : build_invitation_code upper code_bytes ≡ some (codes "ABCD-2345")
unfolding build_invitation_code random_crockford_string upper_ascii
build_code = refl

normalize_invitation_code-build_invitation_code_example :
    normalize_invitation_code upper (codes " " ++ (codes "abCd-2345" ++ []))
    ≡ some (codes "ABCD-2345")
unfolding is_space upper_ascii
normalize_invitation_code-build_invitation_code_example =
    normalize_invitation_code-build_invitation_code upper (λ s h. refl) code_bytes
      (codes "ABCD-2345") (codes "abCd-2345") (codes " ") [] build_code refl (refl, tt) tt

build_invitation_code-total_example :
    (code : Text) × (build_invitation_code upper code_bytes ≡ some code)
unfolding is_accepted
build_invitation_code-total_example =
    build_invitation_code-total upper (λ s h. refl) code_bytes (omega arith)
