-- ===== src/Pow/Verify.antt =====
-- What `verifyPowChallenge` says of a challenge that `issuePowChallenge` made.
use clawclub_server.Common.{
  ℕ, zero, suc, ◌≤◌, ◌<◌, ◌≡◌, refl, ◌∙◌, ◌⊎◌, inl, inr, true, false, not, Option, none, some, List,
  [], ◌∷◌, ◌++◌, arith, leb, ◌==◌, if◌then◌else◌, length, Option-cases, Text, text_eq, text_eq_iff,
  codes, AllOf, >>?-eq-some, subst,
}
use mathlib.Core.Option.{some-injective}
use clawclub_server.Pow.Challenges.{
  PowChallengePayload, JsonField, ParsedPayload, PowCodec, PowKeys, is_invite_code_mac,
  in_mac_class, invite_fields, check_payload, split_at_dot, IssueInput, PowVerdict, invite_binding,
  parse_challenge_payload, issue_pow_challenge, challenge_blob_of, judge, verify_split, is_signed,
  verify_parts, verify_pow_challenge, bound_invite_email_max_chars,
}
use clawclub_server.Pow.Challenges.JsonField.{undefined, text, whole}
use clawclub_server.Pow.Challenges.PowVerdict.{valid, invalid, expired}

abbrev max_safe_integer : ℕ
max_safe_integer = 9007199254740991

-- What `JSON.parse` gives of what `JSON.stringify` prints of a payload.
abbrev invite_mac_field : Option (Text × Text) → JsonField
invite_mac_field none = undefined
invite_mac_field (some (mac, email)) = text mac

abbrev invite_email_field : Option (Text × Text) → JsonField
invite_email_field none = undefined
invite_email_field (some (mac, email)) = text email

abbrev pub parsed_of : PowChallengePayload → ParsedPayload
parsed_of payload = record {
  v = whole 1;
  id = text payload.id;
  club_id = text payload.club_id;
  difficulty = whole payload.difficulty;
  expires_at = whole payload.expires_at;
  invite_code_mac = invite_mac_field payload.invite;
  email = invite_email_field payload.invite;
}

-- What is documented of base64url and JSON: they are read back, base64url has the characters of its
-- alphabet and nothing of it is lost. The numbers are those that a double holds exactly.
pub record CodecLaws (codec : PowCodec) : Type 0 where
  pub decode_text-encode_text :
      (payload : PowChallengePayload)
      → codec.decode_text (codec.encode_text (codec.json_stringify payload))
        ≡ codec.json_stringify payload
  pub decode_bytes-encode_bytes :
      (key message : Text)
      → codec.decode_bytes (codec.encode_bytes (codec.hmac key message)) ≡ codec.hmac key message
  pub encode_text-AllOf :
      (payload : PowChallengePayload)
      → AllOf in_mac_class (codec.encode_text (codec.json_stringify payload))
        × (0 < length (codec.encode_text (codec.json_stringify payload)))
  pub encode_bytes-pos :
      (key message : Text) → 0 < length (codec.encode_bytes (codec.hmac key message))
  pub json_parse-json_stringify :
      (payload : PowChallengePayload)
      → payload.difficulty ≤ max_safe_integer
      → payload.expires_at ≤ max_safe_integer
      → codec.json_parse (codec.json_stringify payload) ≡ some (parsed_of payload)

unfoldable pub IsBound : Option (Text × Text) → Type 0
IsBound none = Unit
IsBound (some (mac, email)) =
    (is_invite_code_mac mac ≡ true)
    × (0 < length email)
    × (length email ≤ bound_invite_email_max_chars)

-- A payload that `parseChallengePayload` lets through.
unfoldable pub IsPayload : PowChallengePayload → Type 0
IsPayload payload =
    (0 < length payload.id)
    × (0 < length payload.club_id)
    × (0 < payload.difficulty)
    × (0 < payload.expires_at)
    × IsBound payload.invite

check_fields :
    (id club_id : Text) (difficulty expires_at : ℕ) (invite : Option (Text × Text))
    → let payload : PowChallengePayload = record {
      id = id;
      club_id = club_id;
      difficulty = difficulty;
      expires_at = expires_at;
      invite = invite;
    } in
      IsPayload payload → check_payload (parsed_of payload) ≡ some payload
unfolding IsPayload IsBound check_payload invite_fields
check_fields (a ∷ id) (b ∷ club) (suc d) (suc e) none h = refl
check_fields (a ∷ id) (b ∷ club) (suc d) (suc e) (some (mac, x ∷ email)) (_, _, _, _, (m, _, l)) =
    rw m (ground arith)
check_fields [] club d e invite (p, _, _, _, _) = absurd (omega arith)
check_fields (a ∷ id) [] d e invite (_, p, _, _, _) = absurd (omega arith)
check_fields (a ∷ id) (b ∷ club) zero e invite (_, _, p, _, _) = absurd (omega arith)
check_fields (a ∷ id) (b ∷ club) (suc d) zero invite (_, _, _, p, _) = absurd (omega arith)
check_fields (a ∷ id) (b ∷ club) (suc d) (suc e) (some (mac, [])) (_, _, _, _, (m, p, _)) =
    absurd (omega arith)

split_at_dot-append :
    (before behind : Text)
    → AllOf in_mac_class before
    → split_at_dot (before ++ (codes "." ++ behind)) ≡ some (before, behind)
unfolding split_at_dot in_mac_class
split_at_dot-append [] behind h = refl
split_at_dot-append (c ∷ before) behind (h, hs) =
    let no_dot : (c == 46) ≡ false = ground arith in
    rw (no_dot, split_at_dot-append before behind hs) refl

-- The key of a challenge is one that the process still knows.
unfoldable pub Knows : (keys : PowKeys) (key : Text) → Type 0
Knows keys key = (keys.active ≡ key) ⊎ (keys.previous ≡ some key)

-- What is said of a challenge for `club_id` that runs out at `expires_at`.
abbrev pub verdict :
    (payload : PowChallengePayload) (expected_club_id : Text) (now_ms : ℕ) → PowVerdict
verdict payload expected_club_id now_ms =
    if not (text_eq payload.club_id expected_club_id)
    then invalid
    else if leb payload.expires_at now_ms
    then expired
    else valid payload

text_eq_refl : (s : Text) → text_eq s s ≡ true
text_eq_refl s = (text_eq_iff s s).1 refl

is_signed-Knows :
    (codec : PowCodec) (keys : PowKeys) (key raw : Text)
    → Knows keys key
    → is_signed codec keys raw (codec.hmac key raw) ≡ true
unfolding is_signed Knows
is_signed-Knows codec keys key raw (inl e) = elim (Option-cases keys.previous) [
  | inl p ↦ rw (p, e, text_eq_refl (codec.hmac key raw)) refl
  | inr (k, p) ↦ rw (p, e, text_eq_refl (codec.hmac key raw)) refl
]
is_signed-Knows codec keys key raw (inr e) =
    rw (e, text_eq_refl (codec.hmac key raw)) (ground arith)

module _ (codec : PowCodec) (laws : CodecLaws codec) where
  verify_parts-payload :
      (keys : PowKeys) (key : Text) (payload : PowChallengePayload) (club : Text) (now_ms : ℕ)
      → Knows keys key
      → IsPayload payload
      → payload.difficulty ≤ max_safe_integer
      → payload.expires_at ≤ max_safe_integer
      → verify_parts codec keys club now_ms
          (codec.encode_text (codec.json_stringify payload))
          (codec.encode_bytes (codec.hmac key (codec.json_stringify payload)))
        ≡ verdict payload club now_ms
  unfolding verify_parts parse_challenge_payload judge
  verify_parts-payload keys key payload club now_ms knows sound d e =
      rw
        (
          laws.decode_text-encode_text payload,
          laws.decode_bytes-encode_bytes key (codec.json_stringify payload),
          laws.json_parse-json_stringify payload d e,
          check_fields payload.id payload.club_id payload.difficulty payload.expires_at
              payload.invite sound,
          is_signed-Knows codec keys key (codec.json_stringify payload) knows,
        )
        refl

  split_parts :
      (keys : PowKeys) (club : Text) (now_ms : ℕ) (a b : Text)
      → 0 < length a
      → 0 < length b
      → verify_split codec keys club now_ms (some (a, b)) ≡ verify_parts codec keys club now_ms a b
  unfolding verify_split
  split_parts keys club now_ms (c ∷ s) (d ∷ u) h k = refl
  split_parts keys club now_ms [] b h k = absurd (omega arith)
  split_parts keys club now_ms (c ∷ s) [] h k = absurd (omega arith)

  verify_blob :
      (keys : PowKeys) (club a b : Text) (now_ms : ℕ)
      → AllOf in_mac_class a
      → 0 < length a
      → 0 < length b
      → verify_pow_challenge codec keys (a ++ (codes "." ++ b)) club now_ms
        ≡ verify_parts codec keys club now_ms a b
  unfolding verify_pow_challenge
  verify_blob keys club a b now_ms class la lb =
      rw (split_at_dot-append a b class) (split_parts keys club now_ms a b la lb)

  issued_blob :
      (keys : PowKeys) (cold_difficulty ttl_ms : ℕ) (id_bytes : List ℕ) (input : IssueInput)
      (payload : PowChallengePayload) (blob : Text)
      → issue_pow_challenge codec keys cold_difficulty ttl_ms id_bytes input ≡ some (payload, blob)
      → blob ≡ challenge_blob_of codec keys payload
  unfolding issue_pow_challenge
  issued_blob keys cold ttl bytes input payload blob issued =
      let (invite, bound, same) =
        >>?-eq-some (invite_binding input.invite_code_mac input.email) _ issued in
      subst (λ (r : PowChallengePayload × Text). r.1 ≡ challenge_blob_of codec keys r.0)
        (some-injective _ _ same) refl

  -- The verdict on a challenge that was issued, by a process that still has its key, as the active
  -- or as the previous one: it is invalid for every other club; for its own it is valid, with the
  -- payload as it was issued, until the time of expiry, and expired from then on. The id has random
  -- bytes, the difficulty and the time of expiry are safe numbers from 1, the club is not empty, and
  -- the invite, if there is one, has a well-formed MAC and an e-mail of 1 to 500 characters.
  pub verify_pow_challenge-issue_pow_challenge :
      (keys later : PowKeys) (cold_difficulty ttl_ms : ℕ) (id_bytes : List ℕ) (input : IssueInput)
      (payload : PowChallengePayload) (blob club : Text) (now_ms : ℕ)
      → issue_pow_challenge codec keys cold_difficulty ttl_ms id_bytes input ≡ some (payload, blob)
      → Knows later keys.active
      → IsPayload payload
      → payload.difficulty ≤ max_safe_integer
      → payload.expires_at ≤ max_safe_integer
      → verify_pow_challenge codec later blob club now_ms ≡ verdict payload club now_ms
  unfolding challenge_blob_of
  verify_pow_challenge-issue_pow_challenge keys later cold ttl bytes input payload blob club now_ms
        issued knows sound d e =
      let (class, filled) = laws.encode_text-AllOf payload in
      rw (issued_blob keys cold ttl bytes input payload blob issued) (
        verify_blob later club (codec.encode_text (codec.json_stringify payload))
          (codec.encode_bytes (codec.hmac keys.active (codec.json_stringify payload))) now_ms class
          filled (laws.encode_bytes-pos keys.active (codec.json_stringify payload))
        ∙ verify_parts-payload later keys.active payload club now_ms knows sound d e)
