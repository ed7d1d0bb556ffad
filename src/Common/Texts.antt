-- ===== src/Common/Texts.antt =====
-- Texts as lists of UTF-16 code units: equality, and JavaScript's `trim`.
use Prim.Native.Nat.{ℕ}
use Prim.Native.Char.{code}
use Prim.Native.String.{String}
use mathlib.Core.Path.{◌≡◌, refl, sym, subst}
use mathlib.Core.Logic.{◌↔◌, inl, inr}
use mathlib.Core.Bool.{Bool, true, false, not, ◌&&◌, ◌||◌}
use mathlib.Core.List.{List, [], ◌∷◌, ◌++◌, reverse, reverse-append, reverse-reverse}
use native.Mathlib.Omega.{arith}
use clawclub_server.Common.Tests.{leb, ◌==◌, ==_iff, if◌then◌else◌, Bool-cases}
use clawclub_server.Common.Lists.{All}

abbrev pub Text : Type 0
Text = List ℕ

unfoldable pub text_eq : Text → Text → Bool
text_eq [] [] = true
text_eq (c ∷ s) (d ∷ t) = c == d && text_eq s t
text_eq _ _ = false

pub text_eq_iff : (s t : Text) → (text_eq s t ≡ true) ↔ (s ≡ t)
unfolding text_eq
text_eq_iff [] [] = ground arith
text_eq_iff [] (d ∷ t) = ground arith
text_eq_iff (c ∷ s) [] = ground arith
text_eq_iff (c ∷ s) (d ∷ t) = ground (arith, ==_iff c d, text_eq_iff s t)

-- The white space and line terminators of ECMAScript.
unfoldable pub is_space : ℕ → Bool
is_space c =
    leb 9 c && leb c 13
    || c == 0x20
    || c == 0xa0
    || c == 0x1680
    || leb 0x2000 c && leb c 0x200a
    || c == 0x2028
    || c == 0x2029
    || c == 0x202f
    || c == 0x205f
    || c == 0x3000
    || c == 0xfeff

unfoldable pub trim_start : Text → Text
unfolding is_space
trim_start [] = []
trim_start (c ∷ s) = if is_space c then trim_start s else c ∷ s

unfoldable pub trim : Text → Text
unfolding trim_start
trim s = reverse (trim_start (reverse (trim_start s)))

-- s.trim().length > 0
unfoldable pub is_visible_text : Text → Bool
unfolding trim
is_visible_text s = elim (trim s) [ [] ↦ false | c ∷ t ↦ true ]

-- The code units of an ASCII literal. `String` has its own `[]` and `∷`.
abbrev pub codes : String → Text
codes String.[] = []
codes (String.◌∷◌ c s) = code c ∷ codes s

abbrev pub AllOf : (ℕ → Bool) → Text → Type 0
AllOf p = All (λ c. p c ≡ true)

pub AllOf-append : (p : ℕ → Bool) (s t : Text) → AllOf p s → AllOf p t → AllOf p (s ++ t)
AllOf-append p [] t _ k = k
AllOf-append p (c ∷ s) t (h, hs) k = (h, AllOf-append p s t hs k)

AllOf-reverse : (p : ℕ → Bool) (s : Text) → AllOf p s → AllOf p (reverse s)
AllOf-reverse p [] h = tt
AllOf-reverse p (c ∷ s) (h, hs) =
    subst (AllOf p) (sym (reverse-append (c ∷ []) s))
      (AllOf-append p (reverse s) (c ∷ []) (AllOf-reverse p s hs) (h, tt))

unfoldable pub is_solid : ℕ → Bool
unfolding is_space
is_solid c = not (is_space c)

trim_start-pad : (p s : Text) → AllOf is_space p → trim_start (p ++ s) ≡ trim_start s
unfolding trim_start
trim_start-pad [] s h = refl
trim_start-pad (c ∷ p) s (h, hs) = rw h (trim_start-pad p s hs)

trim_start-solid : (c : ℕ) (s : Text) → is_solid c ≡ true → trim_start (c ∷ s) ≡ c ∷ s
unfolding trim_start is_solid
trim_start-solid c s h = elim (Bool-cases (is_space c)) [ inl e ↦ cc | inr e ↦ rw e refl ]

trim_start-AllOf : (s : Text) → AllOf is_solid s → trim_start s ≡ s
unfolding trim_start
trim_start-AllOf [] h = refl
trim_start-AllOf (c ∷ s) (h, hs) = trim_start-solid c s h

trim_start-space : (p : Text) → AllOf is_space p → trim_start p ≡ []
unfolding trim_start
trim_start-space [] h = refl
trim_start-space (c ∷ p) (h, hs) = rw h (trim_start-space p hs)

trim_end :
    (s q : Text) → AllOf is_solid s → AllOf is_space q → reverse (trim_start (reverse (s ++ q))) ≡ s
trim_end s q hs hq =
    rw
      (
        reverse-append s q,
        trim_start-pad (reverse q) (reverse s) (AllOf-reverse is_space q hq),
        trim_start-AllOf (reverse s) (AllOf-reverse is_solid s hs),
      )
      (reverse-reverse s)

-- White space round a text without any is trimmed, and nothing else.
pub trim-pad :
    (p s q : Text)
    → AllOf is_space p
    → AllOf is_solid s
    → AllOf is_space q
    → trim (p ++ (s ++ q)) ≡ s
unfolding trim
trim-pad p [] q hp hs hq = rw (trim_start-pad p q hp, trim_start-space q hq) refl
trim-pad p (c ∷ s) q hp hs hq =
    rw (trim_start-pad p (c ∷ s ++ q) hp, trim_start-solid c (s ++ q) hs.0)
      (trim_end (c ∷ s) q hs hq)
