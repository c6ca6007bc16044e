-- ===== src/Payment/Rules/Documents.antt =====
-- internal/domain/payment/rules.go: the numbers of taxpayers, CPF and CNPJ, and their check digits.
pub mod Checks
use payments_hub.Base.{
  ℕ, zero, suc, ◌+◌, ◌-◌, ◌*◌, ◌%◌, Bool, true, false, ◌&&◌, not, List, [], ◌∷◌, ◌++◌, ◌==◌, ltb,
  leb, length, if◌then◌else◌,
}
use payments_hub.Base.Bytes.{Bytes}
use payments_hub.Base.Utf8.{decode_runes, runes, encode_rune}
use payments_hub.Base.Result.{Result, ok, err, malformed, fail_if, ◌>>◌, ◌>>=◌}

-- `int(d[j]-'0')`, a difference of bytes.
unfoldable pub digit : ℕ → ℕ
digit c = (c + 208) % 256

-- `d[j]`; an index past the end, at which the program would panic, is never asked for.
abbrev pub byte_at : ℕ → Bytes → ℕ
byte_at j [] = 0
byte_at zero (c ∷ d) = c
byte_at (suc j) (c ∷ d) = byte_at j d

abbrev pub all_are : ℕ → Bytes → Bool
all_are first [] = true
all_are first (c ∷ d) = c == first && all_are first d

-- `allSameRune`
unfoldable pub all_same_rune : Bytes → Bool
all_same_rune [] = false
all_same_rune (first ∷ d) = all_are first d

-- The sum over the first `n` digits, with weights that fall from `m`.
unfoldable pub falling_sum : ℕ → ℕ → Bytes → ℕ
falling_sum zero m d = 0
falling_sum (suc n) m [] = 0
falling_sum (suc n) m (c ∷ d) = digit c * m + falling_sum n (m - 1) d

-- What the digit behind the first `n` of a CPF has to be.
unfoldable pub cpf_check : ℕ → ℕ → Bytes → ℕ
cpf_check n m d = let rem = falling_sum n m d * 10 % 11 in if rem == 10 then 0 else rem

-- `validateCPFCheckDigits`
unfoldable pub validate_cpf : Bytes → Result (Unit {0})
validate_cpf d = do
  fail_if (all_same_rune d) malformed
  fail_if (not (cpf_check 9 10 d == digit (byte_at 9 d))) malformed
  fail_if (not (cpf_check 10 11 d == digit (byte_at 10 d))) malformed

abbrev cnpj_weights : List ℕ
cnpj_weights = 6 ∷ 5 ∷ 4 ∷ 3 ∷ 2 ∷ 9 ∷ 8 ∷ 7 ∷ 6 ∷ 5 ∷ 4 ∷ 3 ∷ 2 ∷ []

abbrev first_cnpj_weights : List ℕ
first_cnpj_weights = 5 ∷ 4 ∷ 3 ∷ 2 ∷ 9 ∷ 8 ∷ 7 ∷ 6 ∷ 5 ∷ 4 ∷ 3 ∷ 2 ∷ []

-- The digits times their weights.
unfoldable pub weighted_sum : List ℕ → Bytes → ℕ
weighted_sum [] d = 0
weighted_sum (w ∷ ws) [] = 0
weighted_sum (w ∷ ws) (c ∷ d) = digit c * w + weighted_sum ws d

unfoldable pub cnpj_check : List ℕ → Bytes → ℕ
cnpj_check ws d = let rem = weighted_sum ws d % 11 in if leb 2 rem then 11 - rem else 0

-- `validateCNPJCheckDigits`
unfoldable pub validate_cnpj : Bytes → Result (Unit {0})
validate_cnpj d = do
  fail_if (all_same_rune d) malformed
  fail_if (not (cnpj_check first_cnpj_weights d == digit (byte_at 12 d))) malformed
  fail_if (not (cnpj_check cnpj_weights d == digit (byte_at 13 d))) malformed

-- `unicode.IsDigit` is given.
module _ (is_digit : ℕ → Bool) where
  abbrev all_digits : List ℕ → Bool
  all_digits [] = true
  all_digits (r ∷ rs) = is_digit r && all_digits rs

  -- `digitsOnly`
  unfoldable pub digits_only : Bytes → Bool
  digits_only [] = false
  digits_only (c ∷ s) = all_digits (runes (c ∷ s))

  abbrev keep_digits : List ℕ → Bytes
  keep_digits [] = []
  keep_digits (r ∷ rs) =
      let rest = keep_digits rs in if is_digit r then encode_rune r ++ rest else rest

  -- `stripDigits`: the digits are what stays.
  unfoldable pub strip_digits : Bytes → Bytes
  strip_digits s = keep_digits (runes s)

  -- `ValidateDocumentNumber`
  unfoldable pub validate_document_number : Bytes → Result (Unit {0})
  validate_document_number doc =
      let digits = strip_digits doc in
      if length digits == 11
      then validate_cpf digits
      else if length digits == 14
      then validate_cnpj digits
      else err malformed
