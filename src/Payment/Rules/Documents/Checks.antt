-- ===== src/Payment/Rules/Documents/Checks.antt =====
-- The check digits of a CPF are determined by its first nine digits (rules.go).
use payments_hub.Base.{
  ap, append_assoc, length-append, ℕ, zero, suc, ◌+◌, ◌-◌, ◌<◌, ◌≤◌, ◌≡◌, ◌∙◌, sym, refl, false, [],
  ◌∷◌, ◌++◌, arith, length,
}
use payments_hub.Base.Bytes.{Bytes}
use payments_hub.Base.Result.{ok}
use payments_hub.Payment.Rules.Documents.{
  digit, byte_at, all_same_rune, all_are, falling_sum, cpf_check, validate_cpf,
}

digit-ascii : (v : ℕ) → v < 10 → digit (48 + v) ≡ v
unfolding digit
digit-ascii v h = omega arith

digit_inj : (a b : ℕ) → 48 ≤ a → a < 58 → 48 ≤ b → b < 58 → digit a ≡ digit b → a ≡ b
unfolding digit
digit_inj a b h i j k e = omega arith

falling_sum-append :
    (n m : ℕ) (p s : Bytes) → length p ≡ n → falling_sum n m (p ++ s) ≡ falling_sum n m p
unfolding falling_sum
falling_sum-append zero m p s h = refl
falling_sum-append (suc n) m [] s h = ground arith
falling_sum-append (suc n) m (c ∷ p) s h =
    let ih = falling_sum-append n (m - 1) p s (omega arith) in omega arith

cpf_check-append : (n m : ℕ) (p s : Bytes) → length p ≡ n → cpf_check n m (p ++ s) ≡ cpf_check n m p
unfolding cpf_check
cpf_check-append n m p s h = rw (falling_sum-append n m p s h)

cpf_check-lt : (n m : ℕ) (d : Bytes) → cpf_check n m d < 10
unfolding cpf_check
cpf_check-lt n m d = ground arith

byte_at-append : (n : ℕ) (p : Bytes) (c : ℕ) (s : Bytes) → length p ≡ n → byte_at n (p ++ c ∷ s) ≡ c
byte_at-append zero [] c s h = refl
byte_at-append zero (b ∷ p) c s h = ground arith
byte_at-append (suc n) [] c s h = ground arith
byte_at-append (suc n) (b ∷ p) c s h = byte_at-append n p c s (omega arith)

-- What a valid CPF satisfies.
cpf_checked :
    (d : Bytes)
    → validate_cpf d ≡ ok tt
    → (cpf_check 9 10 d ≡ digit (byte_at 9 d)) × (cpf_check 10 11 d ≡ digit (byte_at 10 d))
unfolding validate_cpf
cpf_checked d h = ground arith

abbrev pub IsDigit : ℕ → Type 0
IsDigit c = (48 ≤ c) × (c < 58)

-- The three parts of the check of nine digits and two more.
module _ (p : Bytes) (a b : ℕ) (n : length p ≡ 9) where
  whole : p ++ a ∷ b ∷ [] ≡ (p ++ a ∷ []) ++ b ∷ []
  whole = sym (append_assoc p (a ∷ []) (b ∷ []))

  ten : length (p ++ a ∷ []) ≡ 10
  ten = length-append {A = ℕ} p (a ∷ []) ∙ omega arith

  first_check : cpf_check 9 10 (p ++ a ∷ b ∷ []) ≡ cpf_check 9 10 p
  first_check = cpf_check-append 9 10 p (a ∷ b ∷ []) n

  first_digit : byte_at 9 (p ++ a ∷ b ∷ []) ≡ a
  first_digit = byte_at-append 9 p a (b ∷ []) n

  second_check : cpf_check 10 11 (p ++ a ∷ b ∷ []) ≡ cpf_check 10 11 (p ++ a ∷ [])
  second_check = ap (cpf_check 10 11) whole ∙ cpf_check-append 10 11 (p ++ a ∷ []) (b ∷ []) ten

  second_digit : byte_at 10 (p ++ a ∷ b ∷ []) ≡ b
  second_digit = ap (byte_at 10) whole ∙ byte_at-append 10 (p ++ a ∷ []) b [] ten

  -- The digits that stand behind nine others in a valid CPF.
  checks_of_nine :
      validate_cpf (p ++ a ∷ b ∷ []) ≡ ok tt
      → (digit a ≡ cpf_check 9 10 p) × (digit b ≡ cpf_check 10 11 (p ++ a ∷ []))
  checks_of_nine h =
      let (e, f) = cpf_checked (p ++ a ∷ b ∷ []) h in
      (
        ap digit (sym first_digit) ∙ sym e ∙ first_check,
        ap digit (sym second_digit) ∙ sym f ∙ second_check,
      )

  nine_checked :
      all_same_rune (p ++ a ∷ b ∷ []) ≡ false
      → cpf_check 9 10 p ≡ digit a
      → cpf_check 10 11 (p ++ a ∷ []) ≡ digit b
      → validate_cpf (p ++ a ∷ b ∷ []) ≡ ok tt
  unfolding validate_cpf
  nine_checked d e f =
      let e' : cpf_check 9 10 (p ++ a ∷ b ∷ []) ≡ digit (byte_at 9 (p ++ a ∷ b ∷ [])) =
        first_check ∙ e ∙ ap digit (sym first_digit) in
      let f' : cpf_check 10 11 (p ++ a ∷ b ∷ []) ≡ digit (byte_at 10 (p ++ a ∷ b ∷ [])) =
        second_check ∙ f ∙ ap digit (sym second_digit) in
      ground arith

-- Two valid CPFs that end with two digits each and agree in the nine bytes before are the same.
pub cpf_unique :
    (p : Bytes) (a b a' b' : ℕ)
    → length p ≡ 9
    → (IsDigit a × IsDigit b) × (IsDigit a' × IsDigit b')
    → validate_cpf (p ++ a ∷ b ∷ []) ≡ ok tt
    → validate_cpf (p ++ a' ∷ b' ∷ []) ≡ ok tt
    → (a ≡ a') × (b ≡ b')
cpf_unique p a b a' b' n ((i, j), (i', j')) h k =
    let (e, f) = checks_of_nine p a b n h in
    let (e', f') = checks_of_nine p a' b' n k in
    let first : a ≡ a' = digit_inj a a' i.0 i.1 i'.0 i'.1 (e ∙ sym e') in
    (
      first,
      digit_inj b b' j.0 j.1 j'.0 j'.1 (f ∙ ap (λ c. cpf_check 10 11 (p ++ c ∷ [])) first ∙ sym f'),
    )

all_are-append : (c : ℕ) (p s : Bytes) → all_are c p ≡ false → all_are c (p ++ s) ≡ false
all_are-append c [] s h = ground arith
all_are-append c (b ∷ p) s h = let ih = all_are-append c p s in ground arith

not_same-append :
    (p s : Bytes) → length p ≡ 9 → all_same_rune p ≡ false → all_same_rune (p ++ s) ≡ false
unfolding all_same_rune
not_same-append [] s n h = ground arith
not_same-append (c ∷ p) s n h = all_are-append c p s h

-- Every nine digits that are not all the same begin a valid CPF.
pub cpf_exists :
    (p : Bytes)
    → length p ≡ 9
    → all_same_rune p ≡ false
    → (a : ℕ) × (b : ℕ) × IsDigit a × IsDigit b × (validate_cpf (p ++ a ∷ b ∷ []) ≡ ok tt)
cpf_exists p n h =
    let u = cpf_check 9 10 p in
    let v = cpf_check 10 11 (p ++ (48 + u) ∷ []) in
    let hu : u < 10 = cpf_check-lt 9 10 p in
    let hv : v < 10 = cpf_check-lt 10 11 (p ++ (48 + u) ∷ []) in
    (
      48 + u,
      48 + v,
      (omega arith, omega arith),
      (omega arith, omega arith),
      nine_checked p (48 + u) (48 + v) n (not_same-append p _ n h) (sym (digit-ascii u hu))
          (sym (digit-ascii v hv)),
    )
