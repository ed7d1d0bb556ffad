-- ===== src/Pow/Tests.antt =====
-- The challenges under a simple codec: a text is its length and its characters, and a number is
-- written as that many letters `a` and a `b`.
use clawclub_server.Common.{
  ℕ, zero, suc, ◌+◌, ◌<◌, ◌≡◌, refl, ap, ◌∙◌, inr, Bool, true, false, Option, none, some, [], ◌∷◌,
  ◌++◌, arith, ◌==◌, length, Text, text_eq, codes, AllOf, strip_prefix, take_class,
  take_class-append, ◌>>?◌ as ◌>>=◌,
}
use clawclub_server.Tokens.Alphabet.{random_crockford_string}
use clawclub_server.Pow.Challenges.{
  PowChallengePayload, ParsedPayload, PowCodec, PowKeys, in_mac_class, IssueInput,
  issue_pow_challenge, challenge_blob_of, verify_pow_challenge, validate_pow_solution,
}
use clawclub_server.Pow.Challenges.PowVerdict.{valid}
use clawclub_server.Pow.Verify.{
  parsed_of, CodecLaws, IsPayload, IsBound, Knows, verdict,
  verify_pow_challenge-issue_pow_challenge,
}

unfoldable letters : ℕ → Text → Text
letters zero rest = rest
letters (suc n) rest = 97 ∷ letters n rest

unfoldable encode : Text → Text
unfolding letters
encode [] = []
encode (n ∷ s) = letters n (98 ∷ encode s)

unfoldable decode : (count : ℕ) → Text → Text
decode count [] = []
decode count (c ∷ s) = elim (c == 97) [ true ↦ decode (count + 1) s | false ↦ count ∷ decode 0 s ]

decode-letters :
    (count n : ℕ) (rest : Text) → decode count (letters n (98 ∷ rest)) ≡ (count + n) ∷ decode 0 rest
unfolding decode letters
decode-letters count zero rest = ap (λ (m : ℕ). m ∷ decode 0 rest) (omega arith)
decode-letters count (suc n) rest =
    decode-letters (count + 1) n rest ∙ ap (λ (m : ℕ). m ∷ decode 0 rest) (omega arith)

decode-encode : (s : Text) → decode 0 (encode s) ≡ s
unfolding encode decode
decode-encode [] = refl
decode-encode (n ∷ s) =
    decode-letters 0 n (encode s) ∙ rw (decode-encode s) (ap (λ (m : ℕ). m ∷ s) (omega arith))

letters-AllOf :
    (n : ℕ) (rest : Text) → AllOf in_mac_class rest → AllOf in_mac_class (letters n rest)
unfolding letters in_mac_class
letters-AllOf zero rest h = h
letters-AllOf (suc n) rest h = (refl, letters-AllOf n rest h)

encode-AllOf : (s : Text) → AllOf in_mac_class (encode s)
unfolding encode in_mac_class
encode-AllOf [] = tt
encode-AllOf (n ∷ s) = letters-AllOf n (98 ∷ encode s) (refl, encode-AllOf s)

letters-pos : (n : ℕ) (rest : Text) → 0 < length (letters n (98 ∷ rest))
unfolding letters
letters-pos zero rest = omega arith
letters-pos (suc n) rest = omega (arith, letters-pos n rest)

encode-pos : (s : Text) → 0 < length s → 0 < length (encode s)
unfolding encode
encode-pos [] h = h
encode-pos (n ∷ s) h = letters-pos n (encode s)

abbrev put_text : Text → Text → Text
put_text s rest = length s ∷ (s ++ rest)

abbrev any_char : ℕ → Bool
any_char c = true

get_text : Text → Option (Text × Text)
get_text [] = none
get_text (n ∷ s) = take_class any_char n s

AllOf-any_char : (s : Text) → AllOf any_char s
AllOf-any_char [] = tt
AllOf-any_char (c ∷ s) = (refl, AllOf-any_char s)

get_text-put_text : (s rest : Text) → get_text (put_text s rest) ≡ some (s, rest)
unfolding get_text
get_text-put_text s rest = take_class-append any_char s rest (length s) (AllOf-any_char s) refl

abbrev print_invite : Option (Text × Text) → Text
print_invite none = []
print_invite (some (mac, email)) = put_text mac (put_text email [])

abbrev print : PowChallengePayload → Text
print payload = put_text payload.id (
    put_text payload.club_id
      (payload.difficulty ∷ payload.expires_at ∷ print_invite payload.invite))

read_invite : Text → Option (Option (Text × Text))
read_invite [] = some none
read_invite (n ∷ s) = do
  (mac, rest) ← get_text (n ∷ s)
  (email, _) ← get_text rest
  some (some (mac, email))

read_numbers : (id club_id : Text) → Text → Option ParsedPayload
read_numbers id club_id (difficulty ∷ expires_at ∷ rest) = read_invite rest >>= λ invite. some (
    parsed_of (record {
      id = id;
      club_id = club_id;
      difficulty = difficulty;
      expires_at = expires_at;
      invite = invite;
    }))
read_numbers id club_id _ = none

read : Text → Option ParsedPayload
read s = do
  (id, rest) ← get_text s
  (club_id, numbers) ← get_text rest
  read_numbers id club_id numbers

read_invite-print_invite :
    (invite : Option (Text × Text)) → read_invite (print_invite invite) ≡ some invite
unfolding read_invite
read_invite-print_invite none = refl
read_invite-print_invite (some (mac, email)) =
    rw (get_text-put_text mac (put_text email []), get_text-put_text email []) refl

read-print : (payload : PowChallengePayload) → read (print payload) ≡ some (parsed_of payload)
unfolding read read_numbers
read-print payload =
    rw
      (
        get_text-put_text payload.id (
            put_text payload.club_id
              (payload.difficulty ∷ payload.expires_at ∷ print_invite payload.invite)),
        get_text-put_text payload.club_id
            (payload.difficulty ∷ payload.expires_at ∷ print_invite payload.invite),
        read_invite-print_invite payload.invite,
      )
      refl

abbrev simple_codec : PowCodec
simple_codec = record {
  hmac = λ key message. length key ∷ message;
  sha256_hex = λ s. codes "ab00";
  encode_text = encode;
  decode_text = decode 0;
  encode_bytes = encode;
  decode_bytes = decode 0;
  json_stringify = print;
  json_parse = read;
}

simple_codec-CodecLaws : CodecLaws simple_codec
simple_codec-CodecLaws = record {
  decode_text-encode_text = λ payload. decode-encode (print payload);
  decode_bytes-encode_bytes = λ key message. decode-encode (length key ∷ message);
  encode_text-AllOf =
      λ payload. (encode-AllOf (print payload), encode-pos (print payload) (omega arith));
  encode_bytes-pos = λ key message. encode-pos (length key ∷ message) (omega arith);
  json_parse-json_stringify = λ payload d e. read-print payload;
}

abbrev old_keys : PowKeys
old_keys = record { active = codes "k"; previous = none }

-- The keys after a change of the key.
abbrev new_keys : PowKeys
new_keys = record { active = codes "kk"; previous = some (codes "k") }

abbrev challenge_input : IssueInput
challenge_input = record {
  club_id = codes "c";
  difficulty = some 2;
  now_ms = 3;
  invite_code_mac = none;
  email = none;
}

abbrev issued_payload : PowChallengePayload
issued_payload = record {
  id = codes "2";
  club_id = codes "c";
  difficulty = 2;
  expires_at = 8;
  invite = none;
}

issued :
    issue_pow_challenge simple_codec old_keys 7 5 (0 ∷ []) challenge_input
    ≡ some (issued_payload, challenge_blob_of simple_codec old_keys issued_payload)
unfolding issue_pow_challenge random_crockford_string
issued = refl

verify_pow_challenge-issue_pow_challenge_example :
    verify_pow_challenge simple_codec new_keys
      (challenge_blob_of simple_codec old_keys issued_payload)
      (codes "c")
      7
    ≡ verdict issued_payload (codes "c") 7
unfolding Knows IsPayload IsBound
verify_pow_challenge-issue_pow_challenge_example =
    verify_pow_challenge-issue_pow_challenge simple_codec simple_codec-CodecLaws old_keys new_keys 7
      5 (0 ∷ []) challenge_input issued_payload
      (challenge_blob_of simple_codec old_keys issued_payload) (codes "c") 7 issued (inr refl)
      (omega arith, omega arith, omega arith, omega arith, tt) (omega arith) (omega arith)

still_valid : verdict issued_payload (codes "c") 7 ≡ valid issued_payload
unfolding text_eq
still_valid = refl

solved : validate_pow_solution simple_codec (codes "2") (codes "n") 2 ≡ true
unfolding validate_pow_solution strip_prefix
solved = refl
