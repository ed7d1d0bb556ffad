-- ===== src/Pow/Challenges.antt =====
-- src/pow-challenge.ts: the signed challenges of the proof of work. HMAC, SHA-256, base64url and JSON
-- are parameters; the environment, the clock and the random bytes are arguments.
use mathlib.Core.List.{reverse}
use clawclub_server.Common.{
  ℕ, zero, suc, ◌+◌, Bool, true, false, not, ◌&&◌, ◌||◌, Option, none, some, List, [], ◌∷◌, ◌++◌,
  leb, ◌==◌, if◌then◌else◌, get_or, length, any, Text, text_eq, codes, strip_prefix, take_class,
  ◌>>?◌ as ◌>>=◌, trim,
}
use clawclub_server.Tokens.Alphabet.{random_crockford_string}

abbrev pow_challenge_id_length : ℕ
pow_challenge_id_length = 20

abbrev pub bound_invite_email_max_chars : ℕ
bound_invite_email_max_chars = 500

abbrev invite_code_mac_bytes : ℕ
invite_code_mac_bytes = 32

abbrev invite_code_mac_context : Text
invite_code_mac_context = codes "registration-invite-code:"

-- The MAC of an invite code and the e-mail that a challenge may be bound to: both or none.
pub record PowChallengePayload : Type 0 where
  pub id : Text
  pub club_id : Text
  pub difficulty : ℕ
  pub expires_at : ℕ
  pub invite : Option (Text × Text)

-- A field of a parsed JSON text: a text, a whole number that is not negative, anything else, or
-- `undefined`.
pub data JsonField : Type 0 where
  undefined : JsonField
  text : Text → JsonField
  whole : ℕ → JsonField
  other : JsonField

pub record ParsedPayload : Type 0 where
  pub v : JsonField
  pub id : JsonField
  pub club_id : JsonField
  pub difficulty : JsonField
  pub expires_at : JsonField
  pub invite_code_mac : JsonField
  pub email : JsonField

-- What the code uses of node:crypto, `Buffer` and `JSON`. A signature is a list of bytes; `json_parse`
-- is `none` where `parseChallengePayload` would catch an exception.
pub record PowCodec : Type 0 where
  pub hmac : (key message : Text) → Text
  pub sha256_hex : Text → Text
  pub encode_text : Text → Text
  pub decode_text : Text → Text
  pub encode_bytes : Text → Text
  pub decode_bytes : Text → Text
  pub json_stringify : PowChallengePayload → Text
  pub json_parse : Text → Option ParsedPayload

pub record PowKeys : Type 0 where
  pub active : Text
  pub previous : Option Text

-- The variables of the environment, and the key that the process has made up.
pub record PowEnvironment : Type 0 where
  pub hmac_key : Option Text
  pub hmac_key_previous : Option Text
  pub is_production : Bool
  pub dev_fallback_pow_key : Option Text
  pub logged_dev_fallback_warning : Bool

abbrev trimmed : Option Text → Text
trimmed none = []
trimmed (some raw) = trim raw

abbrev non_empty : Text → Option Text
non_empty [] = none
non_empty (c ∷ s) = some (c ∷ s)

-- getRuntimePowKeys: `none` where it throws. `random_key` is what `randomBytes(32)` returns.
unfoldable pub get_runtime_pow_keys :
    (env : PowEnvironment) (random_key : Text) → Option (PowKeys × PowEnvironment)
get_runtime_pow_keys env random_key = elim (trimmed env.hmac_key) [
  | c ∷ key ↦
      some (record { active = c ∷ key; previous = non_empty (trimmed env.hmac_key_previous) }, env)
  | [] ↦
      if env.is_production
      then none
      else let key = get_or env.dev_fallback_pow_key random_key in
        some (
          record { active = key; previous = none },
          record env { dev_fallback_pow_key = some key; logged_dev_fallback_warning = true },
        )
]

abbrev candidates : PowKeys → List Text
candidates keys = elim keys.previous [ none ↦ keys.active ∷ [] | some key ↦ keys.active ∷ key ∷ [] ]

-- `[A-Za-z0-9_-]`
unfoldable pub in_mac_class : ℕ → Bool
in_mac_class c =
    leb 65 c && leb c 90 || leb 97 c && leb c 122 || leb 48 c && leb c 57 || c == 95 || c == 45

-- INVITE_CODE_MAC_PATTERN
unfoldable pub is_invite_code_mac : Text → Bool
unfolding in_mac_class
is_invite_code_mac mac = elim (take_class in_mac_class 43 mac) [
  | some (read, []) ↦ true
  | some (read, c ∷ rest) ↦ false
  | none ↦ false
]

-- A text that is not empty.
abbrev text_field : JsonField → Option Text
text_field (text []) = none
text_field (text (c ∷ s)) = some (c ∷ s)
text_field _ = none

-- A whole number from 1.
abbrev positive_field : JsonField → Option ℕ
positive_field (whole (suc n)) = some (suc n)
positive_field _ = none

abbrev is_version_1 : JsonField → Bool
is_version_1 (whole n) = n == 1
is_version_1 _ = false

abbrev require : Bool → Option (Unit {0})
require true = some tt
require false = none

-- The invite that a payload is bound to, if its two fields are in order.
unfoldable pub invite_fields : (invite_code_mac email : JsonField) → Option (Option (Text × Text))
unfolding is_invite_code_mac
invite_fields undefined undefined = some none
invite_fields undefined email = none
invite_fields invite_code_mac undefined = none
invite_fields (text mac) email_field = do
  _ ← require (is_invite_code_mac mac)
  email ← text_field email_field
  _ ← require (leb (length email) bound_invite_email_max_chars)
  some (some (mac, email))
invite_fields _ email = none

unfoldable pub check_payload : ParsedPayload → Option PowChallengePayload
unfolding invite_fields
check_payload parsed = do
  _ ← require (is_version_1 parsed.v)
  id ← text_field parsed.id
  club_id ← text_field parsed.club_id
  difficulty ← positive_field parsed.difficulty
  expires_at ← positive_field parsed.expires_at
  invite ← invite_fields parsed.invite_code_mac parsed.email
  some (record {
    id = id;
    club_id = club_id;
    difficulty = difficulty;
    expires_at = expires_at;
    invite = invite;
  })

-- `text.indexOf('.')` cuts the text: what stands before the first dot and after it.
unfoldable pub split_at_dot : Text → Option (Text × Text)
split_at_dot [] = none
split_at_dot (c ∷ s) =
    let rest = split_at_dot s in
    if c == 46
    then some ([], s)
    else elim rest [ none ↦ none | some (before, behind) ↦ some (c ∷ before, behind) ]

pub record IssueInput : Type 0 where
  pub club_id : Text
  pub difficulty : Option ℕ
  pub now_ms : ℕ
  pub invite_code_mac : Option Text
  pub email : Option Text

pub data PowVerdict : Type 0 where
  valid : PowChallengePayload → PowVerdict
  invalid : PowVerdict
  expired : PowVerdict

-- The binding of a new challenge: `none` where the code throws because one part is missing or empty.
unfoldable pub invite_binding :
    (invite_code_mac email : Option Text) → Option (Option (Text × Text))
invite_binding none none = some none
invite_binding (some (m ∷ mac)) (some (e ∷ email)) = some (some (m ∷ mac, e ∷ email))
invite_binding _ _ = none

abbrev has_suffix : (suffix s : Text) → Bool
has_suffix suffix s = elim (strip_prefix (reverse suffix) (reverse s)) [
  | none ↦ false
  | some rest ↦ true
]

abbrev zeroes : ℕ → Text
zeroes zero = []
zeroes (suc n) = 48 ∷ zeroes n

-- The tests of `verifyPowChallenge` on the parsed payload and its signature.
unfoldable pub judge :
    (parsed : Option PowChallengePayload) (signature_valid : Bool) (expected_club_id : Text)
    (now_ms : ℕ)
    → PowVerdict
judge none signature_valid expected_club_id now_ms = invalid
judge (some payload) signature_valid expected_club_id now_ms =
    if not (text_eq payload.club_id expected_club_id)
    then invalid
    else if not signature_valid
    then invalid
    else if leb payload.expires_at now_ms
    then expired
    else valid payload

module _ (codec : PowCodec) where
  -- parseChallengePayload
  unfoldable pub parse_challenge_payload : (raw_payload : Text) → Option PowChallengePayload
  unfolding check_payload
  parse_challenge_payload raw_payload = codec.json_parse raw_payload >>= check_payload

  -- `challengeBlob`
  unfoldable pub challenge_blob_of : (keys : PowKeys) (payload : PowChallengePayload) → Text
  challenge_blob_of keys payload =
      let raw_payload = codec.json_stringify payload in
      codec.encode_text raw_payload
      ++ (codes "." ++ codec.encode_bytes (codec.hmac keys.active raw_payload))

  -- The payload and its blob; the answer repeats the payload's id, difficulty and time of expiry.
  unfoldable pub issue_pow_challenge :
      (keys : PowKeys) (cold_difficulty ttl_ms : ℕ) (id_bytes : List ℕ) (input : IssueInput)
      → Option (PowChallengePayload × Text)
  unfolding invite_binding challenge_blob_of
  issue_pow_challenge keys cold_difficulty ttl_ms id_bytes input = do
    invite ← invite_binding input.invite_code_mac input.email
    let payload : PowChallengePayload = record {
      id = random_crockford_string id_bytes;
      club_id = input.club_id;
      difficulty = get_or input.difficulty cold_difficulty;
      expires_at = input.now_ms + ttl_ms;
      invite = invite;
    }
    some (payload, challenge_blob_of keys payload)

  unfoldable pub is_signed : (keys : PowKeys) (raw_payload signature : Text) → Bool
  is_signed keys raw_payload signature =
      any (λ key. text_eq (codec.hmac key raw_payload) signature) (candidates keys)

  unfoldable pub verify_parts :
      (keys : PowKeys) (expected_club_id : Text) (now_ms : ℕ) (payload_part signature_part : Text)
      → PowVerdict
  unfolding is_signed parse_challenge_payload judge
  verify_parts keys expected_club_id now_ms payload_part signature_part =
      judge (parse_challenge_payload (codec.decode_text payload_part))
        (is_signed keys (codec.decode_text payload_part) (codec.decode_bytes signature_part))
        expected_club_id now_ms

  -- Neither part of the blob is empty.
  unfoldable pub verify_split :
      (keys : PowKeys) (expected_club_id : Text) (now_ms : ℕ) → Option (Text × Text) → PowVerdict
  unfolding verify_parts
  verify_split keys expected_club_id now_ms none = invalid
  verify_split keys expected_club_id now_ms (some ([], signature_part)) = invalid
  verify_split keys expected_club_id now_ms (some (c ∷ payload_part, [])) = invalid
  verify_split keys expected_club_id now_ms (some (c ∷ payload_part, d ∷ signature_part)) =
      verify_parts keys expected_club_id now_ms (c ∷ payload_part) (d ∷ signature_part)

  unfoldable pub verify_pow_challenge :
      (keys : PowKeys) (challenge_blob expected_club_id : Text) (now_ms : ℕ) → PowVerdict
  unfolding split_at_dot verify_split
  verify_pow_challenge keys challenge_blob expected_club_id now_ms =
      verify_split keys expected_club_id now_ms (split_at_dot challenge_blob)

  -- validatePowSolution
  unfoldable pub validate_pow_solution : (challenge_id nonce : Text) (difficulty : ℕ) → Bool
  validate_pow_solution challenge_id nonce difficulty =
      has_suffix (zeroes difficulty) (codec.sha256_hex (challenge_id ++ (codes ":" ++ nonce)))

  unfoldable pub compute_invite_code_mac : (keys : PowKeys) (normalized_code : Text) → Text
  compute_invite_code_mac keys normalized_code =
      codec.encode_bytes (codec.hmac keys.active (invite_code_mac_context ++ normalized_code))

  unfoldable pub verify_invite_code_mac :
      (keys : PowKeys) (normalized_code invite_code_mac : Text) → Bool
  unfolding is_invite_code_mac is_signed
  verify_invite_code_mac keys normalized_code invite_code_mac =
      let supplied = codec.decode_bytes invite_code_mac in
      is_invite_code_mac invite_code_mac
      && (length supplied == invite_code_mac_bytes
          && is_signed keys (invite_code_mac_context ++ normalized_code) supplied)
