-- ===== src/Banks/Pix/Amounts.antt =====
-- The amounts that the clients send: the number of cents read back, and the two ways of writing it.
use payments_hub.Base.{
  ℕ, suc, ◌+◌, ◌/◌, ◌%◌, ◌<◌, ◌≡◌, refl, ◌∙◌, [], ◌∷◌, ◌++◌, length, arith, ltb, ltb→lt, ◌-◌,
  Bool-cases, inl, inr, true, false, ◌==◌,
}
use payments_hub.Base.Bytes.{Bytes, codes}
use payments_hub.Base.Decimal.{
  decimal, decimal-small, decimal-two, signed_decimal, value_from, AllDigits, decimal-AllDigits,
  value-decimal, value_from-append,
}
use payments_hub.Base.Int.{pos, negsuc, int64_bound, neg64, ltb_ℤ}
use payments_hub.Banks.Pix.{format_valor, two_digits}
use payments_hub.Banks.Itau.Gateway.{format_cents}

-- Digits, a point and two digits, which with the point left out are the number.
abbrev pub Reads : Bytes → ℕ → Type 0
Reads s n =
    (whole : Bytes) × (frac : Bytes) × (s ≡ whole ++ codes "." ++ frac)
    × (length frac ≡ 2)
    × AllDigits whole
    × AllDigits frac
    × (value_from 0 (whole ++ frac) ≡ n)

two_digits-eq : (r : ℕ) → r < 100 → two_digits (pos r) ≡ (b'0' + r / 10) ∷ (b'0' + r % 10) ∷ []
unfolding two_digits signed_decimal
two_digits-eq r h = elim (Bool-cases (ltb r 10)) [
  | inl e ↦ rw (decimal-small r (ltb→lt r 10 e)) (two_bytes_eq r (ltb→lt r 10 e))
  | inr e ↦ rw (decimal-two r (ground arith) h) refl
]
  where
    small_div : (r : ℕ) → r < 10 → r / 10 ≡ 0
    small_div r h = omega arith

    small_mod : (r : ℕ) → r < 10 → r % 10 ≡ r
    small_mod r h = omega arith

    two_bytes_eq :
        (r : ℕ)
        → r < 10
        → ◌≡◌ {A = Bytes} (b'0' ∷ (b'0' + r) ∷ []) ((b'0' + r / 10) ∷ (b'0' + r % 10) ∷ [])
    two_bytes_eq r h = rw (small_div r h, small_mod r h) refl

-- The text of an amount that is not negative is the number of cents with a point before its last
-- two digits.
pub format_valor-Reads : (n : ℕ) → Reads (format_valor (pos n)) n
unfolding format_valor signed_decimal
format_valor-Reads n = (
  decimal (n / 100),
  two_digits (pos (n % 100)),
  refl,
  two_long n,
  decimal-AllDigits (n / 100),
  two_digital n,
  read_back n,
)
  where
    two_long : (n : ℕ) → length (two_digits (pos (n % 100))) ≡ 2
    two_long n = rw (two_digits-eq (n % 100) (omega arith)) refl

    two_digital : (n : ℕ) → AllDigits (two_digits (pos (n % 100)))
    two_digital n = rw (two_digits-eq (n % 100) (omega arith)) (ground arith, (ground arith, tt))

    read_back : (n : ℕ) → value_from 0 (decimal (n / 100) ++ two_digits (pos (n % 100))) ≡ n
    read_back n =
        value_from-append 0 (decimal (n / 100)) (two_digits (pos (n % 100)))
        ∙ rw (value-decimal (n / 100), two_digits-eq (n % 100) (omega arith)) (omega arith)

-- For an amount that is not negative Itaú's text is that of the six other clients, and for a
-- negative one, the least int64 apart, it is a minus sign and their text of the amount without it.
pub format_cents-eq :
    (n : ℕ)
    → suc n < int64_bound
    → (format_cents (pos n) ≡ format_valor (pos n))
      × (format_cents (negsuc n) ≡ codes "-" ++ format_valor (pos (suc n)))
unfolding format_cents format_valor neg64
format_cents-eq n h = (rw (not_less n) refl, rw (less n, not_least n h) refl)
  where
    not_less : (n : ℕ) → ltb_ℤ (pos n) (pos 0) ≡ false
    not_less n = ground arith

    less : (n : ℕ) → ltb_ℤ (negsuc n) (pos 0) ≡ true
    less n = ground arith

    not_least : (n : ℕ) → suc n < int64_bound → (n == int64_bound - 1) ≡ false
    not_least n h = ground arith
