-- ===== src/Cnab/Fields/Numbers.antt =====
-- A number that is padded with zeros reads back (fields.go).
use payments_hub.Base.{
  ℕ, zero, suc, ◌+◌, ◌-◌, ◌*◌, ◌%◌, ◌≤◌, ◌<◌, ◌^◌, ◌≡◌, refl, ◌∙◌, ap, sym, drop, arith, length,
  ◌++◌, [], ◌∷◌, replicate, leb, inl, inr, Bool-cases,
}
use native.Mathlib.Nat.{pow-suc, le_trans, mod-eq_of_lt}
use Prim.Native.Nat.{suc-le-suc}
use payments_hub.Base.Int.{pos, int64_bound}
use payments_hub.Base.Bytes.{Bytes}
use payments_hub.Base.Utf8.{AllSolid, runes-solid, trim_space-solid, is_space}
use payments_hub.Base.Decimal.{
  decimal, value_from, value_from-append, value-decimal, decimal-AllDigits, length-decimal,
  AllDigits, AllDigits-append,
}
use payments_hub.Cnab.Fields.{pad_left, pad_left_num, read_digits, read_num, slice}

solid_of_digits : (s : Bytes) → AllDigits s → AllSolid s
unfolding is_space
solid_of_digits [] h = tt
solid_of_digits (c ∷ s) h = (ground (arith, h.0), ground (arith, h.0), solid_of_digits s h.1)

value-ge : (n : ℕ) (s : Bytes) → n ≤ value_from n s
value-ge n [] = omega arith
value-ge n (c ∷ s) = omega (arith, value-ge (n * 10 + (c - b'0')) s)

value-lt : (n : ℕ) (s : Bytes) (b : ℕ) → n < b → AllDigits s → value_from n s < b * 10 ^ length s
value-lt n [] b h d = omega arith
value-lt n (c ∷ s) b h d =
    let small : n * 10 + (c - b'0') < b * 10 = ground (arith, d.0) in
    let below = value-lt (n * 10 + (c - b'0')) s (b * 10) small d.1 in
    omega (arith, below, ap (λ (t : ℕ). b * t) (pow-suc 10 (length s)))

read_digits-value :
    (n : ℕ) (s : Bytes)
    → AllDigits s
    → value_from n s < 2 * int64_bound
    → read_digits n s ≡ value_from n s
unfolding read_digits
read_digits-value n [] d h = refl
read_digits-value n (c ∷ s) d h =
    let m : ℕ = n * 10 + (c - b'0') in
    let same_bits : m % (2 * int64_bound) ≡ m =
      mod-eq_of_lt (le_trans (suc-le-suc (value-ge m s)) h) in
    rw (d.0, same_bits) (read_digits-value m s d.1 h)

zeros-AllDigits : (k : ℕ) → AllDigits (replicate k b'0')
zeros-AllDigits zero = tt
zeros-AllDigits (suc k) = (refl, zeros-AllDigits k)

value-zeros : (k : ℕ) → value_from 0 (replicate k b'0') ≡ 0
value-zeros zero = refl
value-zeros (suc k) = value-zeros k

drop-zero : (k : ℕ) (s : Bytes) → k ≡ 0 → drop k s ≡ s
drop-zero zero s h = refl
drop-zero (suc k) s h = absurd (omega arith)

zeros_none : (k : ℕ) (s : Bytes) → k ≡ 0 → replicate k b'0' ++ s ≡ s
zeros_none zero s h = refl
zeros_none (suc k) s h = absurd (omega arith)

-- A text that fits is padded, never cut.
pub pad_left_short :
    (s : Bytes) (w : ℕ) → length s ≤ w → pad_left s w ≡ replicate (w - length s) b'0' ++ s
unfolding pad_left
pad_left_short s w h = elim (Bool-cases (leb w (length s))) [
  | inl full ↦
      rw full (
        drop-zero (length s - w) s (omega arith) ∙ sym (zeros_none (w - length s) s (ground arith)))
  | inr short ↦ rw short
]

module _ (n w : ℕ) (fits : n < 10 ^ suc w) where
  pad_decimal :
      pad_left (decimal n) (suc w) ≡ replicate (suc w - length (decimal n)) b'0' ++ decimal n
  pad_decimal = pad_left_short (decimal n) (suc w) (length-decimal n w fits)

  pub pad-AllDigits : AllDigits (pad_left (decimal n) (suc w))
  pad-AllDigits =
      rw pad_decimal
        (AllDigits-append _ _ (zeros-AllDigits (suc w - length (decimal n))) (decimal-AllDigits n))

  value-pad : value_from 0 (pad_left (decimal n) (suc w)) ≡ n
  value-pad = rw (pad_decimal, value_from-append, value-zeros, value-decimal)

-- The digits of a slice, read as `ReadNum` does, give back the number that was padded into it.
pub read_num-pad :
    (n w : ℕ) (line : Bytes) (start stop : ℕ)
    → n < 10 ^ suc w
    → n < int64_bound
    → slice line start stop ≡ pad_left_num (pos n) (suc w)
    → read_num line start stop ≡ pos n
unfolding read_num pad_left_num
read_num-pad n w line start stop fits small at =
    let s : Bytes = pad_left (decimal n) (suc w) in
    let d : AllDigits s = pad-AllDigits n w fits in
    let value : read_digits 0 s ≡ n =
      read_digits-value 0 s d (rw (value-pad n w fits) (omega arith)) ∙ value-pad n w fits in
    let solid : AllSolid s = solid_of_digits s d in
    rw (at, trim_space-solid s solid, runes-solid s solid, value) (ground arith)
