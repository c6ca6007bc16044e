-- ===== src/Payment/Rules/Batch.antt =====
-- The limits on the total of a batch (rules.go, ValidateBatch).
use payments_hub.Base.{
  ℕ, ◌+◌, ◌<◌, ◌≤◌, ◌≡◌, ◌⊎◌, refl, Bool, true, false, List, [], ◌∷◌, arith, Bool-cases, ap, inl,
  inr, ◌∙◌,
}
use payments_hub.Base.Int.{
  ℤ, pos, ltb_ℤ, leb_ℤ, ◌≤ℤ◌, ◌<ℤ◌, add64, negsuc, ◌+ℤ◌, pos_part, int64_bound,
}
use payments_hub.Base.Bytes.{Bytes}
use payments_hub.Base.Result.{Result, ok, err, fail_if, policy, ◌>>◌}
use payments_hub.Payment.{Payment}
use payments_hub.Payment.Rules.{Limits, breaks, validate_payment, validate_items, validate_batch}

-- The exact sum of the amounts.
unfoldable pub sum_of : List Payment → ℕ
sum_of [] = 0
sum_of (p ∷ ps) = pos_part p.amount + sum_of ps

-- What a good end of one turn of the loop says of its four parts.
turn_ok :
    (v r : Result (Unit {0})) (b c : Bool)
    → (v >> fail_if b policy >> fail_if c policy >> r) ≡ ok tt
    → (v ≡ ok tt) × (b ≡ false) × (c ≡ false) × (r ≡ ok tt)
turn_ok (ok _) r false false h = (refl, refl, refl, h)
turn_ok (ok _) r false true h = cc
turn_ok (ok _) r true c h = cc
turn_ok (err e) r b c h = cc

turn_goes :
    (v r : Result (Unit {0})) (b c : Bool)
    → v ≡ ok tt
    → b ≡ false
    → c ≡ false
    → (v >> fail_if b policy >> fail_if c policy >> r) ≡ r
turn_goes v r b c h i j = rw (h, i, j) refl

not_breaks : (limit : ℤ) (n : ℕ) → pos n ≤ℤ limit → breaks limit (ltb_ℤ limit (pos n)) ≡ false
not_breaks limit n h = ground arith

-- A total that has overflowed is below every limit.
wrapped_breaks :
    (limit : ℤ) (a b : ℕ)
    → (a < int64_bound) × (b < int64_bound) × (int64_bound ≤ a + b)
    → breaks limit (ltb_ℤ limit (add64 (pos a) (pos b))) ≡ false
unfolding add64 ◌+ℤ◌
wrapped_breaks limit a b h = ground arith

add64-small : (a b : ℕ) → a + b < int64_bound → add64 (pos a) (pos b) ≡ pos (a + b)
unfolding add64 ◌+ℤ◌
add64-small a b h = ground arith

positive_of : (a : ℤ) → leb_ℤ a (pos 0) ≡ false → a ≡ pos (pos_part a)
positive_of (pos n) h = refl
positive_of (negsuc n) h = ground arith

-- A limit that is set is a bound.
bound_of_breaks :
    (limit : ℤ) (n : ℕ)
    → pos 0 <ℤ limit
    → breaks limit (ltb_ℤ limit (pos n)) ≡ false
    → pos n ≤ℤ limit
bound_of_breaks limit n h k = ground arith

-- At most the limit, where it is set.
abbrev Bound : ℤ → ℕ → Type 0
Bound limit n = pos 0 <ℤ limit → pos n ≤ℤ limit

-- The limit is not set, or it is kept.
abbrev pub Kept : ℤ → ℕ → Type 0
Kept limit n = (limit ≤ℤ pos 0) ⊎ (pos n ≤ℤ limit)

Kept-of_Bound : (limit : ℤ) (n : ℕ) → Bound limit n → Kept limit n
Kept-of_Bound limit n h = elim (Bool-cases (ltb_ℤ (pos 0) limit)) [
  | inl set ↦ inr (h (ground arith))
  | inr unset ↦ inl (ground arith)
]

module _ (is_digit : ℕ → Bool) (to_upper : Bytes → Bytes) where
  payment_positive :
      (p : Payment) (limits : Limits) (now : ℕ)
      → validate_payment is_digit to_upper p limits now ≡ ok tt
      → p.amount ≡ pos (pos_part p.amount)
  unfolding validate_payment
  payment_positive p limits now h = elim (Bool-cases (leb_ℤ p.amount (pos 0))) [
    | inl bad ↦ cc (rw bad at h)
    | inr good ↦ positive_of p.amount good
  ]

  -- The loop without overflow: the last total is within the limits that are set.
  items_within :
      (ps : List Payment) (total : ℕ) (limits : Limits) (now : ℕ)
      → validate_items is_digit to_upper ps (pos total) limits now ≡ ok tt
      → total + sum_of ps < int64_bound
      → Bound limits.daily_limit_cents total × Bound limits.batch_limit_cents total
      → Bound limits.daily_limit_cents (total + sum_of ps)
        × Bound limits.batch_limit_cents (total + sum_of ps)
  unfolding validate_items sum_of
  items_within [] total limits now h small (d, b) =
      (λ k. omega (arith, d k), λ k. omega (arith, b k))
  items_within (p ∷ ps) total limits now h small bounds =
      let (valid, daily, batch, rest) =
        turn_ok (validate_payment is_digit to_upper p limits now)
          (validate_items is_digit to_upper ps (add64 (pos total) p.amount) limits now) _ _ h in
      let amount = payment_positive p limits now valid in
      let a = pos_part p.amount in
      let sum : add64 (pos total) p.amount ≡ pos (total + a) =
        ap (add64 (pos total)) amount ∙ add64-small total a (omega arith) in
      let (d, b) = items_within ps (total + a) limits now (rw sum at rest) (omega arith) (
        λ k. bound_of_breaks limits.daily_limit_cents (total + a) k (rw sum at daily),
        λ k. bound_of_breaks limits.batch_limit_cents (total + a) k (rw sum at batch),
      ) in
      (λ k. omega (arith, d k), λ k. omega (arith, b k))

  batch_items :
      (ps : List Payment) (limits : Limits) (now : ℕ)
      → validate_batch is_digit to_upper ps limits now ≡ ok tt
      → validate_items is_digit to_upper ps (pos 0) limits now ≡ ok tt
  unfolding validate_batch
  batch_items ps limits now h = ground arith

  -- A batch that `ValidateBatch` accepts, and whose amounts add up to less than 2 ^ 63, does not
  -- exceed the daily limit, where this is positive, nor the batch limit, where that is positive.
  pub batch_within_limits :
      (ps : List Payment) (limits : Limits) (now : ℕ)
      → validate_batch is_digit to_upper ps limits now ≡ ok tt
      → sum_of ps < int64_bound
      → Kept limits.daily_limit_cents (sum_of ps) × Kept limits.batch_limit_cents (sum_of ps)
  batch_within_limits ps limits now h small =
      let (d, b) =
        items_within ps 0 limits now (batch_items ps limits now h) (omega arith)
          (λ k. omega arith, λ k. omega arith) in
      (
        Kept-of_Bound limits.daily_limit_cents (sum_of ps) (λ k. omega (arith, d k)),
        Kept-of_Bound limits.batch_limit_cents (sum_of ps) (λ k. omega (arith, b k)),
      )

  overflow_items :
      (p q : Payment) (limits : Limits) (now a b : ℕ)
      → validate_payment is_digit to_upper p limits now ≡ ok tt
      → validate_payment is_digit to_upper q limits now ≡ ok tt
      → (p.amount ≡ pos a) × (q.amount ≡ pos b)
      → (a < int64_bound) × (b < int64_bound) × (int64_bound ≤ a + b)
      → (pos a ≤ℤ limits.daily_limit_cents) × (pos a ≤ℤ limits.batch_limit_cents)
      → validate_items is_digit to_upper (p ∷ q ∷ []) (pos 0) limits now ≡ ok tt
  unfolding validate_items
  overflow_items p q limits now a b hp hq (pa, qb) over (ld, lc) =
      let first : add64 (pos 0) p.amount ≡ pos a =
        ap (add64 (pos 0)) pa ∙ add64-small 0 a (omega (arith, over.0)) ∙ ap pos (omega arith) in
      let second : add64 (add64 (pos 0) p.amount) q.amount ≡ add64 (pos a) (pos b) =
        rw (first, qb) refl in
      let daily = limits.daily_limit_cents in
      let batch = limits.batch_limit_cents in
      turn_goes (validate_payment is_digit to_upper p limits now) _ _ _ hp
        (rw first (not_breaks daily a ld)) (rw first (not_breaks batch a lc))
      ∙ turn_goes (validate_payment is_digit to_upper q limits now) _ _ _ hq
          (rw second (wrapped_breaks daily a b over)) (rw second (wrapped_breaks batch a b over))

  -- Without a limit on the number of items, two payments that are valid one by one, with amounts
  -- below 2 ^ 63, are accepted as a batch, whatever the daily and the batch limit are, as soon as
  -- the first amount is within them and the two amounts add up to 2 ^ 63 at least: the total of
  -- the code has become negative.
  pub overflow_passes :
      (p q : Payment) (limits : Limits) (now a b : ℕ)
      → validate_payment is_digit to_upper p limits now ≡ ok tt
      → validate_payment is_digit to_upper q limits now ≡ ok tt
      → (p.amount ≡ pos a) × (q.amount ≡ pos b)
      → (a < int64_bound) × (b < int64_bound) × (int64_bound ≤ a + b)
      → (pos a ≤ℤ limits.daily_limit_cents) × (pos a ≤ℤ limits.batch_limit_cents)
      → limits.batch_max_items ≡ pos 0
      → validate_batch is_digit to_upper (p ∷ q ∷ []) limits now ≡ ok tt
  unfolding validate_batch
  overflow_passes p q limits now a b hp hq (pa, qb) over (ld, lc) m =
      simp m (overflow_items p q limits now a b hp hq (pa, qb) over (ld, lc))
