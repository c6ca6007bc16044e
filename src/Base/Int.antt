-- ===== src/Base/Int.antt =====
-- Signed integers over the native numbers, and Go's int64 with its wrap-around.
use payments_hub.Base.{
  ℕ, suc, ◌+◌, ◌-◌, ◌*◌, ◌%◌, ◌≤◌, ◌<◌, ◌≡◌, Bool, arith, ltb, leb, ◌==◌, if◌then◌else◌,
}

-- `negsuc n` is -(n + 1).
pub data ℤ : Type 0 where
  pos : ℕ → ℤ
  negsuc : ℕ → ℤ

abbrev pub pos_part : ℤ → ℕ
pos_part (pos n) = n
pos_part (negsuc n) = 0

abbrev pub neg_part : ℤ → ℕ
neg_part (pos n) = 0
neg_part (negsuc n) = suc n

-- a - b, as an integer.
abbrev pub sub_ℕ : ℕ → ℕ → ℤ
sub_ℕ a b = if leb b a then pos (a - b) else negsuc (b - a - 1)

infixl 65 ◌+ℤ◌
infix 50 ◌≤ℤ◌ ◌<ℤ◌
unfoldable pub ◌+ℤ◌ : ℤ → ℤ → ℤ
a +ℤ b = sub_ℕ (pos_part a + pos_part b) (neg_part a + neg_part b)

abbrev pub ◌≤ℤ◌ : ℤ → ℤ → Type 0
a ≤ℤ b = pos_part a + neg_part b ≤ pos_part b + neg_part a

abbrev pub ◌<ℤ◌ : ℤ → ℤ → Type 0
a <ℤ b = pos_part a + neg_part b < pos_part b + neg_part a

abbrev pub ltb_ℤ : ℤ → ℤ → Bool
ltb_ℤ a b = ltb (pos_part a + neg_part b) (pos_part b + neg_part a)

abbrev pub leb_ℤ : ℤ → ℤ → Bool
leb_ℤ a b = leb (pos_part a + neg_part b) (pos_part b + neg_part a)

-- 2 ^ 63, the bound of an int64.
abbrev pub int64_bound : ℕ
int64_bound = 9223372036854775808

-- The values that an int64 holds.
abbrev pub IsInt64 : ℤ → Type 0
IsInt64 a = (pos_part a < int64_bound) × (neg_part a ≤ int64_bound)

-- The int64 with the low 64 bits of `u`.
abbrev pub signed64 : ℕ → ℤ
signed64 u = if ltb u int64_bound then pos u else negsuc (2 * int64_bound - u - 1)

-- An integer brought into the range of an int64 by dropping the higher bits.
abbrev pub wrap64 : ℤ → ℤ
wrap64 (pos n) = signed64 (n % (2 * int64_bound))
wrap64 (negsuc n) = signed64 (2 * int64_bound - 1 - n % (2 * int64_bound))

-- Go's `a + b` on int64.
unfoldable pub add64 : ℤ → ℤ → ℤ
unfolding ◌+ℤ◌
add64 a b = wrap64 (a +ℤ b)

-- Go's `-a` on int64: the least value is its own negation.
unfoldable pub neg64 : ℤ → ℤ
neg64 (pos n) = sub_ℕ 0 n
neg64 (negsuc n) = if n == int64_bound - 1 then negsuc n else pos (suc n)

-- Without overflow the sum is the integers'.
pub add64-eq : (a b : ℤ) → IsInt64 (a +ℤ b) → add64 a b ≡ a +ℤ b
unfolding add64
add64-eq a b h = ground arith

-- The sum of two int64 values is an int64.
pub add64-IsInt64 : (a b : ℤ) → IsInt64 a → IsInt64 b → IsInt64 (add64 a b)
unfolding add64
add64-IsInt64 a b h k = ground arith

sub_ℕ-swap :
    (a b c d e f : ℕ)
    → sub_ℕ (a + pos_part (sub_ℕ (b + c) (e + f))) (d + neg_part (sub_ℕ (b + c) (e + f)))
      ≡ sub_ℕ (b + pos_part (sub_ℕ (a + c) (d + f))) (e + neg_part (sub_ℕ (a + c) (d + f)))
sub_ℕ-swap a b c d e f = ground arith

pub +ℤ-swap : (a b c : ℤ) → a +ℤ (b +ℤ c) ≡ b +ℤ (a +ℤ c)
unfolding ◌+ℤ◌
+ℤ-swap a b c =
    sub_ℕ-swap (pos_part a) (pos_part b) (pos_part c) (neg_part a) (neg_part b) (neg_part c)
