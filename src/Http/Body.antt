-- ===== src/Http/Body.antt =====
-- src/http-boundary.ts: the bearer token of a request and the reading of its body. What Node delivers
-- of a body is a list of events; decoding UTF-8 and JSON is a parameter.
use clawclub_server.Errors.{ErrorCode}
use clawclub_server.Errors.ErrorCode.{
  invalid_auth_header, invalid_json, payload_too_large, payload_timeout,
}
use clawclub_server.Common.{
  ℕ, ◌+◌, ◌-◌, Bool, ◌&&◌, ◌||◌, Option, none, some, List, [], ◌∷◌, ◌++◌, ltb, leb, ◌==◌,
  if◌then◌else◌, length, any, Result, ok, err, Text, codes, is_space, is_visible_text,
}

-- A character of `Bearer `, in capitals or small letters.
abbrev same_letter : ℕ → ℕ → Bool
same_letter lower c = c == lower || (leb 97 lower && leb lower 122 && c == lower - 32)

unfoldable pub strip_prefix_ignoring_case : (lower_prefix text : Text) → Option Text
strip_prefix_ignoring_case [] text = some text
strip_prefix_ignoring_case (p ∷ prefix) [] = none
strip_prefix_ignoring_case (p ∷ prefix) (c ∷ text) =
    if same_letter p c then strip_prefix_ignoring_case prefix text else none

-- `([^\s]+)$`
abbrev token_of : Text → Option Text
token_of [] = none
token_of (c ∷ s) = if any is_space (c ∷ s) then none else some (c ∷ s)

-- parseBearerAuthorization. A missing or empty header is no error.
unfoldable pub parse_bearer_authorization : (header : Option Text) → Result (Option Text)
unfolding strip_prefix_ignoring_case
parse_bearer_authorization none = ok none
parse_bearer_authorization (some []) = ok none
parse_bearer_authorization (some (c ∷ header)) =
    elim (strip_prefix_ignoring_case (codes "bearer ") (c ∷ header)) [
      | none ↦ err invalid_auth_header
      | some rest ↦ elim (token_of rest) [
        | none ↦ err invalid_auth_header
        | some token ↦ ok (some token)
      ]
    ]

-- What is delivered of a body. A request may fail with an error of its own, or be aborted.
pub data BodyEvent : Type 0 where
  data_event : (chunk : List ℕ) → BodyEvent
  end_event : BodyEvent
  error_event : BodyEvent
  aborted_event : BodyEvent
  timeout_event : BodyEvent

-- How the promise is settled: `failed` with the error of the request.
pub data BodyOutcome (Object : Type 0) : Type 0 where
  resolved : Object → BodyOutcome Object
  rejected : (code : ErrorCode) → BodyOutcome Object
  failed : BodyOutcome Object

-- What a text is as JSON: `JSON.parse` throws, another value, or an object.
pub data ParsedBody (Object : Type 0) : Type 0 where
  no_json : ParsedBody Object
  no_object : ParsedBody Object
  object : Object → ParsedBody Object

pub record BodyCodec (Object : Type 0) : Type 0 where
  pub decode : List ℕ → Text
  pub parse : Text → ParsedBody Object
  pub empty_object : Object

pub record BodyReader (Object : Type 0) : Type 0 where
  pub chunks : List (List ℕ)
  pub total_bytes : ℕ
  pub settled : Option (BodyOutcome Object)

-- Buffer.concat
unfoldable pub concat : List (List ℕ) → List ℕ
concat [] = []
concat (chunk ∷ chunks) = chunk ++ concat chunks

module _ {Object : Type 0} (codec : BodyCodec Object) where
  abbrev parsed_outcome : ParsedBody Object → BodyOutcome Object
  parsed_outcome no_json = rejected invalid_json
  parsed_outcome no_object = rejected invalid_json
  parsed_outcome (object value) = resolved value

  -- `onEnd`, of the bytes of the body.
  unfoldable pub answer_body : (body : List ℕ) → BodyOutcome Object
  answer_body body =
      if is_visible_text (codec.decode body)
      then parsed_outcome (codec.parse (codec.decode body))
      else resolved codec.empty_object

  abbrev settle : BodyOutcome Object → BodyReader Object → BodyReader Object
  settle outcome reader = record reader { settled = some outcome }

  -- An event of a reader that is not settled.
  unfoldable pub on_event : (max_body_bytes : ℕ) → BodyEvent → BodyReader Object → BodyReader Object
  unfolding answer_body concat
  on_event max_body_bytes (data_event chunk) reader =
      if ltb max_body_bytes (reader.total_bytes + length chunk)
      then settle (rejected payload_too_large)
          (record reader { total_bytes = reader.total_bytes + length chunk })
      else (record reader {
        chunks = reader.chunks ++ chunk ∷ [];
        total_bytes = reader.total_bytes + length chunk;
      })
  on_event max_body_bytes end_event reader = settle (answer_body (concat reader.chunks)) reader
  on_event max_body_bytes error_event reader = settle failed reader
  on_event max_body_bytes aborted_event reader = settle (rejected invalid_json) reader
  on_event max_body_bytes timeout_event reader = settle (rejected payload_timeout) reader

  -- Once the promise is settled the listeners are gone.
  unfoldable pub read_event :
      (max_body_bytes : ℕ) → BodyEvent → BodyReader Object → BodyReader Object
  unfolding on_event
  read_event max_body_bytes event reader = elim reader.settled [
    | none ↦ on_event max_body_bytes event reader
    | some outcome ↦ reader
  ]

  unfoldable pub read_events :
      (max_body_bytes : ℕ) → List BodyEvent → BodyReader Object → BodyReader Object
  unfolding read_event
  read_events max_body_bytes [] reader = reader
  read_events max_body_bytes (event ∷ events) reader =
      read_events max_body_bytes events (read_event max_body_bytes event reader)

  -- readJsonBody: how the promise is settled, if it is.
  unfoldable pub read_json_body :
      (max_body_bytes : ℕ) → List BodyEvent → Option (BodyOutcome Object)
  unfolding read_events
  read_json_body max_body_bytes events =
      (read_events max_body_bytes events
        (record { chunks = []; total_bytes = 0; settled = none })).settled
