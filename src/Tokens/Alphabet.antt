-- ===== src/Tokens/Alphabet.antt =====
-- src/crockford.ts: random texts over the alphabet without look-alike characters. The bytes that
-- `randomBytes` returns are an argument.
use clawclub_server.Common.{
  ℕ, zero, suc, ◌%◌, ◌<◌, ◌≡◌, refl, Bool, true, ◌&&◌, List, [], ◌∷◌, ◌++◌, arith, ◌==◌, length,
  any, length-append, Text, codes, AllOf, AllOf-append,
}

-- CROCKFORD_LOWER_ALPHABET, and TOKEN_ALPHABET of src/token.ts.
abbrev pub alphabet : Text
alphabet = codes "23456789abcdefghjkmnpqrstuvwxyz"

-- `[${TOKEN_ALPHABET}]`
unfoldable pub in_alphabet : ℕ → Bool
in_alphabet c = any (λ d. d == c) alphabet

-- What `output += text[index]` appends: past the end it is the text "undefined".
abbrev pub char_at : (text : Text) (index : ℕ) → Text
char_at [] index = codes "undefined"
char_at (c ∷ text) zero = c ∷ []
char_at (c ∷ text) (suc index) = char_at text index

-- randomCrockfordString: one character for each byte.
unfoldable pub random_crockford_string : (bytes : List ℕ) → Text
random_crockford_string [] = []
random_crockford_string (byte ∷ bytes) =
    char_at alphabet (byte % length alphabet) ++ random_crockford_string bytes

abbrev pub all : (ℕ → Bool) → Text → Bool
all class [] = true
all class (c ∷ s) = class c && all class s

pub all→AllOf : (class : ℕ → Bool) (s : Text) → all class s ≡ true → AllOf class s
all→AllOf class [] h = tt
all→AllOf class (c ∷ s) h = (ground arith, all→AllOf class s (ground arith))

char_at-AllOf :
    (class : ℕ → Bool) (s : Text) (i : ℕ)
    → AllOf class s
    → i < length s
    → AllOf class (char_at s i) × (length (char_at s i) ≡ 1)
char_at-AllOf class [] i h lt = absurd (omega arith)
char_at-AllOf class (c ∷ s) zero h lt = ((h.0, tt), refl)
char_at-AllOf class (c ∷ s) (suc i) h lt = char_at-AllOf class s i h.1 (omega arith)

alphabet-AllOf : AllOf in_alphabet alphabet
unfolding in_alphabet
alphabet-AllOf = all→AllOf in_alphabet alphabet refl

-- A random text has a character of the alphabet for each byte.
pub random_crockford_string-AllOf :
    (bytes : List ℕ)
    → AllOf in_alphabet (random_crockford_string bytes)
      × (length (random_crockford_string bytes) ≡ length bytes)
unfolding random_crockford_string
random_crockford_string-AllOf [] = (tt, refl)
random_crockford_string-AllOf (byte ∷ bytes) =
    let one =
      char_at-AllOf in_alphabet alphabet (byte % length alphabet) alphabet-AllOf (omega arith) in
    let rest = random_crockford_string-AllOf bytes in
    (
      AllOf-append in_alphabet _ _ one.0 rest.0,
      omega (
        arith,
        one.1,
        rest.1,
        length-append (char_at alphabet (byte % length alphabet)) (random_crockford_string bytes),
      ),
    )

-- Whether `p` holds of all numbers below `n`.
abbrev pub all_below : (n : ℕ) (p : ℕ → Bool) → Bool
all_below zero p = true
all_below (suc n) p = p n && all_below n p

pub all_below→ : (n : ℕ) (p : ℕ → Bool) (i : ℕ) → all_below n p ≡ true → i < n → p i ≡ true
all_below→ zero p i h lt = absurd (omega arith)
all_below→ (suc n) p i h lt = ground (arith, all_below→ n p i)
