-- ===== src/Common/Lists.antt =====
-- Lists of table rows: sums and counts over the native numbers, searches, updates in place.
use Prim.Native.Nat.{ℕ, suc, ◌+◌, ◌≤◌}
use mathlib.Core.Path.{◌≡◌, refl}
use mathlib.Core.Bool.{Bool, true, false, ◌||◌}
use mathlib.Core.Path.{subst}
use mathlib.Core.Logic.{inl, inr}
use mathlib.Core.Option.{Option, none, some, some-injective}
use mathlib.Core.List.{List, [], ◌∷◌, ◌++◌}
use native.Mathlib.Omega.{arith}
use clawclub_server.Common.Tests.{if◌then◌else◌, Bool-cases}

module _ {ℓ} {A : Type ℓ} where
  abbrev pub length : List A → ℕ
  length [] = 0
  length (x ∷ xs) = suc (length xs)

  abbrev pub sum_by : (A → ℕ) → List A → ℕ
  sum_by f [] = 0
  sum_by f (x ∷ xs) = f x + sum_by f xs

  abbrev pub count_by : (A → Bool) → List A → ℕ
  count_by p [] = 0
  count_by p (x ∷ xs) = (if p x then 1 else 0) + count_by p xs

  abbrev pub find : (A → Bool) → List A → Option A
  find p [] = none
  find p (x ∷ xs) = if p x then some x else find p xs

  abbrev pub any : (A → Bool) → List A → Bool
  any p [] = false
  any p (x ∷ xs) = p x || any p xs

  abbrev pub filter : (A → Bool) → List A → List A
  filter p [] = []
  filter p (x ∷ xs) = let rest = filter p xs in if p x then x ∷ rest else rest

  -- `update … set … where p`
  abbrev pub update_where : (A → Bool) → (A → A) → List A → List A
  update_where p g [] = []
  update_where p g (x ∷ xs) = (if p x then g x else x) ∷ update_where p g xs

  abbrev pub All {κ} : (A → Type κ) → List A → Type κ
  All P [] = Unit
  All P (x ∷ xs) = P x × All P xs

module _ {ℓ} {A : Type ℓ} where
  pub length-append : (xs ys : List A) → length (xs ++ ys) ≡ length xs + length ys
  length-append [] ys = omega arith
  length-append (x ∷ xs) ys = omega (arith, length-append xs ys)

  pub sum_by-append : (f : A → ℕ) (xs ys : List A) → sum_by f (xs ++ ys) ≡ sum_by f xs + sum_by f ys
  sum_by-append f [] ys = omega arith
  sum_by-append f (x ∷ xs) ys = omega (arith, sum_by-append f xs ys)

  pub sum_by_mono : (f g : A → ℕ) (xs : List A) → ((a : A) → f a ≤ g a) → sum_by f xs ≤ sum_by g xs
  sum_by_mono f g [] h = omega arith
  sum_by_mono f g (x ∷ xs) h = omega (arith, h x, sum_by_mono f g xs h)

  pub sum_by-update_where :
      (f : A → ℕ) (p : A → Bool) (g : A → A) (xs : List A)
      → ((a : A) → p a ≡ true → f (g a) ≤ f a)
      → sum_by f (update_where p g xs) ≤ sum_by f xs
  sum_by-update_where f p g [] h = omega arith
  sum_by-update_where f p g (x ∷ xs) h = ground (arith, h x, sum_by-update_where f p g xs h)

  pub sum_by-update_where_eq :
      (f : A → ℕ) (p : A → Bool) (g : A → A) (xs : List A)
      → ((a : A) → p a ≡ true → f (g a) ≡ f a)
      → sum_by f (update_where p g xs) ≡ sum_by f xs
  sum_by-update_where_eq f p g [] h = refl
  sum_by-update_where_eq f p g (x ∷ xs) h = ground (arith, h x, sum_by-update_where_eq f p g xs h)

  pub count_by-append :
      (p : A → Bool) (xs ys : List A) → count_by p (xs ++ ys) ≡ count_by p xs + count_by p ys
  count_by-append p [] ys = omega arith
  count_by-append p (x ∷ xs) ys = omega (arith, count_by-append p xs ys)

  pub length-update_where :
      (p : A → Bool) (g : A → A) (xs : List A) → length (update_where p g xs) ≡ length xs
  length-update_where p g [] = refl
  length-update_where p g (x ∷ xs) = omega (arith, length-update_where p g xs)

  pub sum_by-update_where-All :
      (f : A → ℕ) (p : A → Bool) (g : A → A) (xs : List A)
      → All (λ a. p a ≡ true → f (g a) ≤ f a) xs
      → sum_by f (update_where p g xs) ≤ sum_by f xs
  sum_by-update_where-All f p g [] h = omega arith
  sum_by-update_where-All f p g (x ∷ xs) (h, hs) =
      ground (arith, h, sum_by-update_where-All f p g xs hs)

  -- Rows that an update has taken out of its own condition are not updated again.
  pub update_where_idem :
      (p : A → Bool) (g h : A → A) (xs : List A)
      → ((a : A) → p (g a) ≡ false)
      → update_where p h (update_where p g xs) ≡ update_where p g xs
  update_where_idem p g h [] e = refl
  update_where_idem p g h (x ∷ xs) e = ground (arith, e x, update_where_idem p g h xs e)

  pub All-map {κ μ} :
      {P : A → Type κ} {Q : A → Type μ} (xs : List A) → ((a : A) → P a → Q a) → All P xs → All Q xs
  All-map [] h _ = tt
  All-map (x ∷ xs) h (p, ps) = (h x p, All-map xs h ps)

  pub count_by-update_where :
      (p : A → Bool) (g : A → A) (xs : List A)
      → ((a : A) → p (g a) ≡ false)
      → count_by p (update_where p g xs) ≡ 0
  count_by-update_where p g [] e = refl
  count_by-update_where p g (x ∷ xs) e = ground (arith, e x, count_by-update_where p g xs e)

  pub find-update_where :
      (p : A → Bool) (g : A → A) (xs : List A)
      → ((a : A) → p (g a) ≡ false)
      → find p (update_where p g xs) ≡ none
  find-update_where p g [] e = refl
  find-update_where p g (x ∷ xs) e = ground (arith, e x, find-update_where p g xs e)

  -- An update that finds no row changes nothing.
  pub update_where-none :
      (p : A → Bool) (g : A → A) (xs : List A) → find p xs ≡ none → update_where p g xs ≡ xs
  update_where-none p g [] e = refl
  update_where-none p g (x ∷ xs) e = ground (arith, update_where-none p g xs)

  -- What all rows have, the row that is found has.
  pub All-find {κ} :
      (P : A → Type κ) (p : A → Bool) (xs : List A) {x : A} → All P xs → find p xs ≡ some x → P x
  All-find P p [] h e = cc
  All-find P p (y ∷ xs) {x} (h, hs) e = elim (Bool-cases (p y)) [
    | inl here ↦ let same : y ≡ x = some-injective _ _ (rw here at e) in subst P same h
    | inr there ↦ All-find P p xs hs (rw there at e)
  ]

  -- A row that is found meets the condition.
  pub find-holds : (p : A → Bool) (xs : List A) (x : A) → find p xs ≡ some x → p x ≡ true
  find-holds p [] x h = cc
  find-holds p (y ∷ xs) x h = elim (Bool-cases (p y)) [
    | inl here ↦ subst (λ z. p z ≡ true) (some-injective _ _ (rw here at h)) here
    | inr there ↦ find-holds p xs x (rw there at h)
  ]
