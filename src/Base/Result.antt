-- ===== src/Base/Result.antt =====
-- A Go call that returns a value and an `error`. A wrapped error is the sentinel that `errors.Is`
-- finds in it; the text of a message is left out.
use payments_hub.Base.{◌≡◌, refl, Bool, true, false}

pub data Error : Type 0 where
  not_found conflict illegal_transition invalid_input : Error
  idempotency_mismatch validation policy : Error
  unavailable no_rows unique_violation check_violation foreign_key_violation : Error
  auth_failed rejected_by_bank rate_limited circuit_open bad_response unexpected_status : Error
  malformed unknown_bank : Error
  cancelled use_batch panicked invalid_text : Error

pub data Result {ℓ} (A : Type ℓ) : Type ℓ where
  ok : A → Result A
  err : Error → Result A

-- `if bad { return err }`
abbrev pub fail_if : Bool → Error → Result (Unit {0})
fail_if true e = err e
fail_if false e = ok tt

module _ {ℓ κ} {A : Type ℓ} {B : Type κ} where
  infixl 5 ◌>>=◌
  -- The steps of a function, each of which returns its error to the caller at once.
  abbrev pub ◌>>=◌ : Result A → (A → Result B) → Result B
  err e >>= next = err e
  ok value >>= next = next value

module _ {ℓ} {B : Type ℓ} where
  infixl 5 ◌>>◌
  abbrev pub ◌>>◌ : Result (Unit {0}) → Result B → Result B
  checked >> next = checked >>= λ _. next

pub bind_ext {ℓ κ} :
    {A : Type ℓ} {B : Type κ} (m : Result A) (f g : A → Result B)
    → ((a : A) → f a ≡ g a)
    → (m >>= f) ≡ (m >>= g)
bind_ext (ok a) f g h = h a
bind_ext (err e) f g h = refl

pub bind_assoc {ℓ κ μ} :
    {A : Type ℓ} {B : Type κ} {C : Type μ} (m : Result A) (f : A → Result B) (g : B → Result C)
    → ((m >>= f) >>= g) ≡ (m >>= λ a. f a >>= g)
bind_assoc (ok a) f g = refl
bind_assoc (err e) f g = refl

pub bind-ok {ℓ} : {A : Type ℓ} (m : Result A) → (m >>= ok) ≡ m
bind-ok (ok a) = refl
bind-ok (err e) = refl
