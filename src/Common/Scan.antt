-- ===== src/Common/Scan.antt =====
-- Reading a text from the left, as the anchored regular expressions of the code do.
use Prim.Native.Nat.{ℕ, zero, suc}
use mathlib.Core.Path.{◌≡◌, refl}
use mathlib.Core.Logic.{inl, inr}
use mathlib.Core.Bool.{Bool}
use mathlib.Core.Option.{Option, none, some, some-injective}
use mathlib.Core.List.{[], ◌∷◌, ◌++◌}
use native.Mathlib.Omega.{arith}
use clawclub_server.Common.Tests.{◌==◌, ==_iff, ==_refl, if◌then◌else◌, Bool-cases}
use clawclub_server.Common.Lists.{length}
use clawclub_server.Common.Texts.{Text, AllOf}

-- What follows the prefix `p`, if the text starts with it.
unfoldable pub strip_prefix : (p s : Text) → Option Text
strip_prefix [] s = some s
strip_prefix (c ∷ p) [] = none
strip_prefix (c ∷ p) (d ∷ s) = if c == d then strip_prefix p s else none

-- `[class]{n}`: the first `n` characters, all of the class, and the rest.
unfoldable pub take_class : (class : ℕ → Bool) (n : ℕ) (s : Text) → Option (Text × Text)
take_class class zero s = some ([], s)
take_class class (suc n) [] = none
take_class class (suc n) (c ∷ s) =
    let rest = take_class class n s in
    if class c then elim rest [ none ↦ none | some (xs, r) ↦ some (c ∷ xs, r) ] else none

-- `[class]*`, as far as it goes, and the rest.
unfoldable pub span : (class : ℕ → Bool) (s : Text) → Text × Text
span class [] = ([], [])
span class (c ∷ s) =
    let rest = span class s in if class c then (c ∷ rest.0, rest.1) else ([], c ∷ s)

pub strip_prefix-append : (p s : Text) → strip_prefix p (p ++ s) ≡ some s
unfolding strip_prefix
strip_prefix-append [] s = refl
strip_prefix-append (c ∷ p) s = rw (==_refl c) (strip_prefix-append p s)

pub strip_prefix-eq-some : (p s r : Text) → strip_prefix p s ≡ some r → s ≡ p ++ r
unfolding strip_prefix
strip_prefix-eq-some [] s r h = cc
strip_prefix-eq-some (c ∷ p) [] r h = cc
strip_prefix-eq-some (c ∷ p) (d ∷ s) r h = ground (arith, ==_iff c d, strip_prefix-eq-some p s r)

pub take_class-append :
    (class : ℕ → Bool) (xs s : Text) (n : ℕ)
    → AllOf class xs
    → length xs ≡ n
    → take_class class n (xs ++ s) ≡ some (xs, s)
unfolding take_class
take_class-append class [] s zero h e = refl
take_class-append class [] s (suc n) h e = absurd (omega arith)
take_class-append class (c ∷ xs) s zero h e = absurd (omega arith)
take_class-append class (c ∷ xs) s (suc n) (h, hs) e =
    rw (h, take_class-append class xs s n hs (omega arith)) refl

pub take_class-eq-some :
    (class : ℕ → Bool) (n : ℕ) (s xs r : Text)
    → take_class class n s ≡ some (xs, r)
    → (s ≡ xs ++ r) × AllOf class xs × (length xs ≡ n)
unfolding take_class
take_class-eq-some class zero s [] r h = (ground arith, tt, refl)
take_class-eq-some class zero s (x ∷ xs) r h = absurd (ground arith)
take_class-eq-some class (suc n) [] xs r h = cc
take_class-eq-some class (suc n) (c ∷ s) [] r h = absurd (ground arith)
take_class-eq-some class (suc n) (c ∷ s) (x ∷ xs) r h =
    ground (arith, take_class-eq-some class n s xs r)

pub span-append :
    (class : ℕ → Bool) (xs s : Text)
    → AllOf class xs
    → (span class s).0 ≡ []
    → (span class s).1 ≡ s
    → span class (xs ++ s) ≡ (xs, s)
unfolding span
span-append class [] s h e f = ground arith
span-append class (c ∷ xs) s (h, hs) e f = rw (h, span-append class xs s hs e f) refl

pub span-joins : (class : ℕ → Bool) (s : Text) → (span class s).0 ++ (span class s).1 ≡ s
unfolding span
span-joins class [] = refl
span-joins class (c ∷ s) = ground (arith, span-joins class s)

pub span-AllOf : (class : ℕ → Bool) (s : Text) → AllOf class (span class s).0
unfolding span
span-AllOf class [] = tt
span-AllOf class (c ∷ s) = elim (Bool-cases (class c)) [
  | inl h ↦ rw h (h, span-AllOf class s)
  | inr h ↦ rw h tt
]

module _ {ℓ κ} {A : Type ℓ} {B : Type κ} where
  infixl 5 ◌>>?◌
  -- The rest of a match runs on what the first part read.
  abbrev pub ◌>>?◌ : (first : Option A) (rest : A → Option B) → Option B
  none >>? rest = none
  some a >>? rest = rest a

  pub >>?-eq-some :
      (first : Option A) (rest : A → Option B) {b : B}
      → (first >>? rest) ≡ some b
      → (a : A) × (first ≡ some a) × (rest a ≡ some b)
  >>?-eq-some none rest h = cc
  >>?-eq-some (some a) rest h = (a, refl, h)

-- `$`: a match ends where the text ends.
abbrev pub at_end {ℓ} : {A : Type ℓ} → A → Text → Option A
at_end a [] = some a
at_end a (c ∷ rest) = none

pub at_end-eq-some {ℓ} :
    {A : Type ℓ} (a b : A) (rest : Text) → at_end a rest ≡ some b → (a ≡ b) × (rest ≡ [])
at_end-eq-some a b [] h = (some-injective _ _ h, refl)
at_end-eq-some a b (c ∷ rest) h = cc
