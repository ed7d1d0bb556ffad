-- ===== src/Common/Results.antt =====
-- Results of code that may throw an `AppError`: of the error the model keeps its code.
-- A transaction returns the new database, and an error rolls it back.
use mathlib.Core.Bool.{Bool, true, false}
use mathlib.Core.Path.{◌≡◌, refl}
use mathlib.Core.Logic.{◌⊎◌, inl, inr}
use mathlib.Core.Option.{Option, none, some}
use clawclub_server.Errors.{ErrorCode}

-- `err` holds the code of the error that is thrown.
pub data Result {ℓ} (A : Type ℓ) : Type ℓ where
  err : (code : ErrorCode) → Result A
  ok : (answer : A) → Result A

-- `if (!passed) throw new AppError(code)`
abbrev pub guard : (passed : Bool) (code : ErrorCode) → Result (Unit {0})
guard false code = err code
guard true code = ok tt

module _ {ℓ κ} {A : Type ℓ} {B : Type κ} where
  infixl 5 ◌>>=◌
  -- The rest of the function runs on the answer, if there is one.
  abbrev pub ◌>>=◌ : (first : Result A) (rest : A → Result B) → Result B
  err code >>= rest = err code
  ok answer >>= rest = rest answer

infixl 5 ◌>>◌
abbrev pub ◌>>◌ {κ} : {B : Type κ} (first : Result (Unit {0})) (rest : Result B) → Result B
first >> rest = first >>= λ done. rest

abbrev pub or_throw {ℓ} : {A : Type ℓ} → Option A → ErrorCode → Result A
or_throw none e = err e
or_throw (some a) e = ok a

-- What is in the database after a transaction on `s`.
abbrev pub after {ℓ κ} : {S : Type ℓ} {A : Type κ} → S → Result (A × S) → S
after s (ok (a, s')) = s'
after s (err e) = s

module _ {ℓ κ} {A : Type ℓ} {B : Type κ} where
  -- What a function that returned went through.
  pub >>=-eq-ok :
      (first : Result A) (rest : A → Result B) {b : B}
      → (first >>= rest) ≡ ok b
      → (a : A) × (first ≡ ok a) × (rest a ≡ ok b)
  >>=-eq-ok (err code) rest h = cc
  >>=-eq-ok (ok a) rest h = (a, refl, h)

pub Result-cases {ℓ} :
    {A : Type ℓ} (r : Result A) → ((a : A) × (r ≡ ok a)) ⊎ ((code : ErrorCode) × (r ≡ err code))
Result-cases (err code) = inr (code, refl)
Result-cases (ok a) = inl (a, refl)
