-- ===== src/Payment/Rules/Keys.antt =====
-- internal/domain/payment/rules.go: the shape of a PIX key. Each regular expression is a test on
-- the bytes; a byte of a rune that is not ASCII is in no class but a negated one.
use payments_hub.Base.{
  ℕ, zero, suc, Bool, true, false, ◌&&◌, ◌||◌, not, List, [], ◌∷◌, ◌++◌, ◌==◌, ltb, leb, length,
  if◌then◌else◌,
}
use payments_hub.Base.Bytes.{Bytes, codes, same, is_ascii_digit}
use payments_hub.Base.Utf8.{trim_space}
use payments_hub.Base.Result.{Result, err, malformed, fail_if, ◌>>◌}
use payments_hub.Payment.Rules.Documents.{strip_digits, validate_cpf, validate_cnpj}

-- `^\d{n}$`
unfoldable pub are_digits : ℕ → Bytes → Bool
are_digits zero [] = true
are_digits (suc n) (c ∷ s) = is_ascii_digit c && are_digits n s
are_digits _ _ = false

-- `\s`
abbrev is_blank : ℕ → Bool
is_blank c = c == 9 || (c == 10 || (c == 12 || (c == 13 || c == 32)))

-- `[^@\s]`
abbrev is_plain : ℕ → Bool
is_plain c = not (c == b'@' || is_blank c)

abbrev is_empty : Bytes → Bool
is_empty [] = true
is_empty (_ ∷ _) = false

abbrev all_plain : Bytes → Bool
all_plain [] = true
all_plain (c ∷ s) = is_plain c && all_plain s

-- A dot with something behind it.
abbrev has_dot : Bytes → Bool
has_dot [] = false
has_dot (c ∷ s) = c == b'.' && not (is_empty s) || has_dot s

-- `[^@\s]+\.[^@\s]+`
abbrev is_domain : Bytes → Bool
is_domain [] = false
is_domain (c ∷ s) = is_plain c && (all_plain s && has_dot s)

-- What follows the first letter of the local part.
abbrev is_rest : Bytes → Bool
is_rest [] = false
is_rest (c ∷ s) = if c == b'@' then is_domain s else is_plain c && is_rest s

-- `reEmail`
unfoldable pub is_email : Bytes → Bool
is_email [] = false
is_email (c ∷ s) = is_plain c && is_rest s

-- `\d{10,11}$`
abbrev is_national : Bytes → Bool
is_national s = are_digits 10 s || are_digits 11 s

abbrev is_brazilian : Bytes → Bool
is_brazilian (a ∷ b ∷ s) = a == b'5' && b == b'5' && is_national s
is_brazilian _ = false

-- `rePhone`
unfoldable pub is_phone : Bytes → Bool
unfolding are_digits
is_phone [] = false
is_phone (c ∷ s) = if c == b'+' then is_brazilian s else is_brazilian (c ∷ s)

abbrev is_hex : ℕ → Bool
is_hex c = is_ascii_digit c || (leb b'a' c && leb c b'f' || leb b'A' c && leb c b'F')

-- `n` hexadecimal digits, and then groups of the lengths `ns`, each behind a dash.
abbrev are_hex : ℕ → List ℕ → Bytes → Bool
are_hex zero [] [] = true
are_hex zero [] (_ ∷ _) = false
are_hex zero (_ ∷ _) [] = false
are_hex zero (n ∷ ns) (c ∷ s) = c == b'-' && are_hex n ns s
are_hex (suc n) ns [] = false
are_hex (suc n) ns (c ∷ s) = is_hex c && are_hex n ns s

-- `reEVP`
unfoldable pub is_evp : Bytes → Bool
is_evp s = are_hex 8 (4 ∷ 4 ∷ 4 ∷ 12 ∷ []) s

-- `strings.ReplaceAll(s, old, "")` for one byte.
abbrev without : ℕ → Bytes → Bytes
without old [] = []
without old (c ∷ s) = let rest = without old s in if c == old then rest else c ∷ rest

abbrev starts_with_plus : Bytes → Bool
starts_with_plus [] = false
starts_with_plus (c ∷ _) = c == b'+'

module _ (is_digit : ℕ → Bool) (to_upper : Bytes → Bytes) where
  unfoldable pub clean_phone : Bytes → Bytes
  clean_phone value =
      let cleaned = without b')' (without b'(' (without b'-' (without b' ' value))) in
      if starts_with_plus cleaned then cleaned else codes "+55" ++ strip_digits is_digit cleaned

  -- The switch on the type of the key.
  unfoldable pub validate_value : Bytes → Bytes → Result (Unit {0})
  validate_value key_type value =
      if same key_type (codes "CPF")
      then (let digits = strip_digits is_digit value in
          fail_if (not (are_digits 11 digits)) malformed >> validate_cpf digits)
      else if same key_type (codes "CNPJ")
      then (let digits = strip_digits is_digit value in
          fail_if (not (are_digits 14 digits)) malformed >> validate_cnpj digits)
      else if same key_type (codes "EMAIL")
      then (fail_if (not (is_email value)) malformed >> fail_if (ltb 77 (length value)) malformed)
      else if same key_type (codes "PHONE")
      then fail_if (not (is_phone (clean_phone value))) malformed
      else if same key_type (codes "EVP")
      then fail_if (not (is_evp value)) malformed
      else err malformed

  -- `ValidatePIXKey`
  unfoldable pub validate_pix_key : Bytes → Bytes → Result (Unit {0})
  validate_pix_key key_type value = do
    fail_if (is_empty (trim_space value)) malformed
    validate_value (to_upper key_type) (trim_space value)
