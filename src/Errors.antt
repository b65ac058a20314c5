-- ===== src/Errors.antt =====
-- Go's `error` values, and results that carry one.
use cronbat.Prelude.{◌≡◌, refl, sym, Bool, true, false, ◌++◌}
use cronbat.Text.{Text}

-- `err.Error()`, and whether `errors.Is(err, os.ErrNotExist)`.
pub record Error : Type 0 where
  pub message : Text
  pub is_not_exist : Bool

-- errors.New, fmt.Errorf
abbrev pub new_error : Text → Error
new_error message = record { message = message; is_not_exist = false }

pub data Result {ℓ} (A : Type ℓ) : Type ℓ where
  err : Error → Result A
  ok : A → Result A

infixl 5 ◌>>=◌ ◌>>◌
-- `if err != nil { return err }`, and then the rest
abbrev pub ◌>>=◌ {ℓ κ} : {A : Type ℓ} {B : Type κ} → Result A → (A → Result B) → Result B
err e >>= rest = err e
ok value >>= rest = rest value

abbrev pub ◌>>◌ {κ} : {B : Type κ} → Result (Unit {0}) → Result B → Result B
err e >> rest = err e
ok _ >> rest = rest

-- `if !test { return errors.New(message) }`
abbrev pub require : Bool → Text → Result (Unit {0})
require true message = ok tt
require false message = err (new_error message)

-- fmt.Errorf("prefix: %w", err)
abbrev pub wrap {ℓ} : {A : Type ℓ} → Text → Result A → Result A
wrap prefix (ok a) = ok a
wrap prefix (err e) = err (record e { message = prefix ++ e.message })

-- What a successful chain says of its parts.
pub require-ok {ℓ} :
    {A : Type ℓ} (test : Bool) (message : Text) (k : Result A) {a : A}
    → (require test message >> k) ≡ ok a
    → (test ≡ true) × (k ≡ ok a)
require-ok true message k h = (refl, h)
require-ok false message k h = absurd (cc)

pub bind-ok {ℓ κ} :
    {B : Type κ} {A : Type ℓ} (first : Result A) (rest : A → Result B) {value : B}
    → ok value ≡ (first >>= rest)
    → (a : A) × (first ≡ ok a) × (rest a ≡ ok value)
bind-ok (err e) rest h = absurd (cc)
bind-ok (ok a) rest h = (a, refl, sym h)

pub wrap-ok {ℓ} :
    {A : Type ℓ} (prefix : Text) (r : Result A) {a : A} → wrap prefix r ≡ ok a → r ≡ ok a
wrap-ok prefix (ok a) h = h
wrap-ok prefix (err e) h = absurd (cc)

pub then-ok {κ} :
    {B : Type κ} (first : Result (Unit {0})) (rest : Result B) {value : B}
    → (first >> rest) ≡ ok value
    → (first ≡ ok tt) × (rest ≡ ok value)
then-ok (err e) rest h = absurd (cc)
then-ok (ok _) rest h = (refl, h)

pub ok_injective {ℓ} : {A : Type ℓ} {a b : A} → ok a ≡ ok b → a ≡ b
ok_injective e = cc
