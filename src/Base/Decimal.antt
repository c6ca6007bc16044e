-- ===== src/Base/Decimal.antt =====
-- Numbers in decimal: `fmt.Sprintf("%d", n)` and what reads it back.
use payments_hub.Base.{
  ℕ, zero, suc, ◌+◌, ◌-◌, ◌*◌, ◌/◌, ◌%◌, ◌^◌, ◌≤◌, ◌<◌, ◌≡◌, refl, ap, ◌∙◌, true, false, inl, inr,
  [], ◌∷◌, ◌++◌, arith, ltb, lt→ltb, Bool-cases, length, length-append,
}
use native.Mathlib.Nat.{pow-suc}
use payments_hub.Base.Int.{ℤ, pos, negsuc}
use payments_hub.Base.Bytes.{Bytes, is_ascii_digit}

-- At most as many digits as the fuel; a number has fewer digits than it is great, but for 0.
digits_of : ℕ → ℕ → Bytes
digits_of zero n = []
digits_of (suc f) n = elim (ltb n 10) [
  | true ↦ (b'0' + n) ∷ []
  | false ↦ digits_of f (n / 10) ++ (b'0' + n % 10) ∷ []
]

unfoldable pub decimal : ℕ → Bytes
unfolding digits_of
decimal n = digits_of (suc n) n

-- `%d` of a signed number.
unfoldable pub signed_decimal : ℤ → Bytes
unfolding decimal
signed_decimal (pos n) = decimal n
signed_decimal (negsuc n) = b'-' ∷ decimal (suc n)

-- The value of the digits, read from the left.
abbrev pub value_from : ℕ → Bytes → ℕ
value_from acc [] = acc
value_from acc (c ∷ s) = value_from (acc * 10 + (c - b'0')) s

abbrev pub AllDigits : Bytes → Type 0
AllDigits [] = Unit
AllDigits (c ∷ s) = (is_ascii_digit c ≡ true) × AllDigits s

pub AllDigits-append : (s t : Bytes) → AllDigits s → AllDigits t → AllDigits (s ++ t)
AllDigits-append [] t h k = k
AllDigits-append (c ∷ s) t h k = (h.0, AllDigits-append s t h.1 k)

pub value_from-append :
    (a : ℕ) (s t : Bytes) → value_from a (s ++ t) ≡ value_from (value_from a s) t
value_from-append a [] t = refl
value_from-append a (c ∷ s) t = value_from-append (a * 10 + (c - b'0')) s t

digits_of-AllDigits : (f n : ℕ) → AllDigits (digits_of f n)
unfolding digits_of
digits_of-AllDigits zero n = tt
digits_of-AllDigits (suc f) n = elim (Bool-cases (ltb n 10)) [
  | inl small ↦ rw (small, digits_of) (ground arith, tt)
  | inr big ↦
      rw (big, digits_of)
        (AllDigits-append (digits_of f (n / 10)) _ (digits_of-AllDigits f (n / 10))
          (ground arith, tt))
]

value-digits_of : (f n : ℕ) → n < f → value_from 0 (digits_of f n) ≡ n
unfolding digits_of
value-digits_of zero n h = elim h [ ]
value-digits_of (suc f) n h = elim (Bool-cases (ltb n 10)) [
  | inl small ↦ rw (small, digits_of) (omega arith)
  | inr big ↦
      rw (big, digits_of)
        (value_from-append 0 (digits_of f (n / 10)) _
          ∙ rw (value-digits_of f (n / 10) (ground arith)) (omega arith))
]

div-pow : (n w : ℕ) → n < 10 ^ suc (suc w) → n / 10 < 10 ^ suc w
div-pow n w h = omega (arith, pow-suc 10 (suc w))

-- Fewer digits than places, for a number below 10 ^ w.
length-digits_of : (f n w : ℕ) → n < 10 ^ suc w → length (digits_of f n) ≤ suc w
unfolding digits_of
length-digits_of zero n w h = omega arith
length-digits_of (suc f) n zero h = elim (Bool-cases (ltb n 10)) [
  | inl small ↦ rw (small, digits_of) (omega arith)
  | inr big ↦ absurd (ground arith)
]
length-digits_of (suc f) n (suc w) h = elim (Bool-cases (ltb n 10)) [
  | inl small ↦ rw (small, digits_of) (omega arith)
  | inr big ↦
      rw (big, digits_of)
        (omega (
          arith,
          length-append {0} (digits_of f (n / 10)) ((b'0' + n % 10) ∷ []),
          length-digits_of f (n / 10) w (div-pow n w h),
        ))
]

-- The digits of a number are digits, read back to it, and are no more than the places it needs.
pub decimal-AllDigits : (n : ℕ) → AllDigits (decimal n)
unfolding decimal
decimal-AllDigits n = digits_of-AllDigits (suc n) n

pub value-decimal : (n : ℕ) → value_from 0 (decimal n) ≡ n
unfolding decimal
value-decimal n = value-digits_of (suc n) n (omega arith)

pub length-decimal : (n w : ℕ) → n < 10 ^ suc w → length (decimal n) ≤ suc w
unfolding decimal
length-decimal n w h = length-digits_of (suc n) n w h

digits_of-small : (f n : ℕ) → n < 10 → digits_of (suc f) n ≡ (b'0' + n) ∷ []
unfolding digits_of
digits_of-small f n h = rw (lt→ltb n 10 h, digits_of) refl

digits_of-big :
    (f n : ℕ) → 10 ≤ n → digits_of (suc f) n ≡ digits_of f (n / 10) ++ (b'0' + n % 10) ∷ []
unfolding digits_of
digits_of-big f n h = elim (Bool-cases (ltb n 10)) [
  | inl e ↦ absurd (ground arith)
  | inr e ↦ rw (e, digits_of) refl
]

-- The digits of the numbers below a hundred.
pub decimal-small : (n : ℕ) → n < 10 → decimal n ≡ (b'0' + n) ∷ []
unfolding decimal
decimal-small n h = digits_of-small n n h

pub decimal-two : (n : ℕ) → 10 ≤ n → n < 100 → decimal n ≡ (b'0' + n / 10) ∷ (b'0' + n % 10) ∷ []
unfolding decimal
decimal-two zero h k = elim h [ ]
decimal-two (suc n) h k =
    digits_of-big (suc n) (suc n) h
    ∙ ap (λ s. s ++ (b'0' + suc n % 10) ∷ []) (digits_of-small n (suc n / 10) (ground arith))
