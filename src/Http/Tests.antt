-- ===== src/Http/Tests.antt =====
-- Headers and bodies of requests.
use clawclub_server.Errors.ErrorCode.{invalid_auth_header, payload_too_large}
use clawclub_server.Common.{
  ℕ, ◌≡◌, refl, some, List, [], ◌∷◌, ◌++◌, map, ok, err, Text, codes, is_space, is_visible_text,
}
use clawclub_server.Http.Body.{
  parse_bearer_authorization, ParsedBody, BodyCodec, concat, read_json_body,
}
use clawclub_server.Http.Body.BodyEvent.{data_event, end_event, aborted_event}
use clawclub_server.Http.Body.BodyOutcome.{resolved, rejected}
use clawclub_server.Http.Whole.{whole_outcome, read_json_body-eq-whole}

bearer : parse_bearer_authorization (some (codes "bEARER abc")) ≡ ok (some (codes "abc"))
unfolding parse_bearer_authorization is_space
bearer = refl

not_bearer : parse_bearer_authorization (some (codes "Bearer a b")) ≡ err invalid_auth_header
unfolding parse_bearer_authorization is_space
not_bearer = refl

-- A codec of which each text is an object.
abbrev plain_codec : BodyCodec Text
plain_codec = record {
  decode = λ bytes. bytes;
  parse = λ text. ParsedBody.object text;
  empty_object = [];
}

abbrev chunks : List (List ℕ)
chunks = codes "{a" ∷ codes "b}" ∷ []

two_chunks :
    read_json_body plain_codec 4 (map data_event chunks ++ end_event ∷ [])
    ≡ some (resolved (codes "{ab}"))
unfolding read_json_body is_visible_text is_space
two_chunks = refl

read_json_body-eq-whole_example :
    read_json_body plain_codec 3 (map data_event chunks ++ end_event ∷ aborted_event ∷ [])
    ≡ some (whole_outcome plain_codec 3 (concat chunks))
read_json_body-eq-whole_example = read_json_body-eq-whole plain_codec 3 chunks (aborted_event ∷ [])

-- The body above is one byte too long.
too_long : whole_outcome plain_codec 3 (concat chunks) ≡ rejected payload_too_large
unfolding whole_outcome concat
too_long = refl
