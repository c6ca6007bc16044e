-- ===== src/Banks/Core/Backoff.antt =====
-- The backoff of `doWithRetry` of bankcore: a wait needs a positive jitter range.
use payments_hub.Base.{
  ℕ, ap, ◌∙◌, false, zero, suc, ◌+◌, ◌*◌, ◌/◌, ◌^◌, ◌==◌, ◌≤◌, ◌<◌, ◌≡◌, ◌≢◌, ◌⊎◌, inl, inr, refl,
  Option, none, some, arith, Bool-cases,
}
use native.Mathlib.Omega.{pow_step}
use payments_hub.Base.Int.{ℤ, pos, int64_bound}
use payments_hub.Base.Result.{Error, Result, ok, err, panicked, cancelled}
use payments_hub.Banks.Wire.{
  Outside, Conn, Call, Response, pure, raise, read, require, modify, continue, ◌>>=◌, ◌>>◌,
}
use payments_hub.Banks.Core.Attempts.{Tried, attempt-Tried}
use payments_hub.Banks.Core.{
  ClientConfig, Message, Verdict, done, again, attempt, pause, pause_for, retry, follow,
  do_with_retry, double64, judge,
}

-- Neither a panic nor one that is kept as the last error.
abbrev Safe : Result Verdict → Type 0
Safe v = (v ≢ err panicked) × (v ≢ ok (again panicked))

judge-Safe : (o : Option Response) → Safe (judge o)
unfolding judge
judge-Safe none = ((λ h. cc), (λ h. cc))
judge-Safe (some r) = ((λ h. ground arith), (λ h. ground arith))

double_pow : (b n : ℕ) → b * 2 ^ suc n ≡ (b + b) * 2 ^ n
double_pow b n = rw (pow_step 2 n) (omega arith)

le_mul : (x y : ℕ) → 0 < y → x ≤ x * y
le_mul x zero h = elim h [ ]
le_mul x (suc y) h = ground arith

pow_pos : (n : ℕ) → 0 < 2 ^ n
pow_pos zero = omega arith
pow_pos (suc n) = rw (pow_step 2 n) (omega (arith, pow_pos n))

le_mul_pow : (x n : ℕ) → x ≤ x * 2 ^ n
le_mul_pow x n = le_mul x (2 ^ n) (pow_pos n)

twice_small : (b n : ℕ) → b * 2 ^ suc n < int64_bound → b + b < int64_bound
twice_small b n h = omega (arith, double_pow b n, le_mul_pow (b + b) n)

module _ (out : Outside) where
  -- A wait that can panic does not, and at most doubles the backoff.
  pause_cases :
      (i b : ℕ) (c : Conn)
      → 2 ≤ b
      → b + b < int64_bound
      → ((pause out i (pos b) c).0 ≡ err cancelled)
        ⊎ (((pause out i (pos b) c).0 ≡ ok (pos b))
            ⊎ ((pause out i (pos b) c).0 ≡ ok (pos (b + b))))
  unfolding pause pause_for pure raise read require modify ◌>>=◌ ◌>>◌
  pause_cases zero b c h k = inr (inl refl)
  pause_cases (suc i) b c h k = elim (Bool-cases (out.is_cancelled c.sent)) [
    | inl e ↦ inl (rw (half b h, e) refl)
    | inr e ↦ inr (inr (rw (half b h, e) (ap (λ x. ok x) (double_small b k))))
  ]
    where
      half : (b : ℕ) → 2 ≤ b → (b / 2 == 0) ≡ false
      half b h = ground arith

      double_small : (b : ℕ) → b + b < int64_bound → double64 (pos b) ≡ pos (b + b)
      double_small b k = ground arith

  module _ (cfg : ClientConfig) (m : Message) where
    attempt-Safe :
        (c : Conn) (result : Result Verdict × Conn) → Tried out cfg m c result → Safe result.0
    attempt-Safe c (v, d) (inl (inl e, _)) = ((λ h. cc), (λ h. cc))
    attempt-Safe c (v, d) (inl (inr e, _)) = ((λ h. cc), (λ h. cc))
    attempt-Safe c (v, d) (inr ((log, r, _, e), _)) = rw⁻¹ (e) (judge-Safe (out.answer log r))

    after_attempt :
        (next : Error → Call Response) (result : Result Verdict × Conn)
        → Safe result.0
        → ((e : Error) (c : Conn) → e ≢ panicked → (next e c).0 ≢ err panicked)
        → (continue result.0 (λ v. follow out v next) result.1).0 ≢ err panicked
    unfolding pure
    after_attempt next (err e, d) h k p = h.0 cc
    after_attempt next (ok (done r), d) h k p = cc
    after_attempt next (ok (again e), d) h k p = k e d (λ q. h.1 cc) p

    after_pause :
        (f : ℤ → Call Response) (result : Result ℤ × Conn)
        → (result.0 ≡ err cancelled)
          ⊎ ((b : ℤ) × (result.0 ≡ ok b) × ((c : Conn) → (f b c).0 ≢ err panicked))
        → (continue result.0 f result.1).0 ≢ err panicked
    after_pause f (err e, d) (inl h) p = cc
    after_pause f (err e, d) (inr (b, h, k)) p = cc
    after_pause f (ok b, d) (inl h) p = cc
    after_pause f (ok a, d) (inr (b, h, k)) p = k d (ap (λ x. (f x d).0) (same_ok b a h) ∙ p)
      where
        same_ok : (b a : ℤ) → ◌≡◌ {A = Result ℤ} (ok a) (ok b) → b ≡ a
        same_ok b a h = cc

    abbrev attempts : ℕ → ℕ → ℤ → Call Response
    attempts n i next =
        attempt out cfg m >>= λ v. follow out v (λ e. retry out cfg m n (suc i) next (some e))

    attempts-no-panic :
        (n i : ℕ) (next : ℤ)
        → ((e : Error) (c : Conn)
            → e ≢ panicked
            → (retry out cfg m n (suc i) next (some e) c).0 ≢ err panicked)
        → (c : Conn) → (attempts n i next c).0 ≢ err panicked
    unfolding ◌>>=◌
    attempts-no-panic n i next rest c =
        after_attempt (λ e. retry out cfg m n (suc i) next (some e)) (attempt out cfg m c)
          (attempt-Safe c (attempt out cfg m c) (attempt-Tried out cfg m c)) rest

    retry-no-panic :
        (n i b : ℕ) (last : Option Error) (c : Conn)
        → last ≢ some panicked
        → 2 ≤ b
        → b * 2 ^ n < int64_bound
        → (retry out cfg m n i (pos b) last c).0 ≢ err panicked
    unfolding retry raise ◌>>=◌
    retry-no-panic zero i b none c l h k p = cc
    retry-no-panic zero i b (some e) c l h k p = l cc
    retry-no-panic (suc n) i b last c l h k p =
        after_pause (attempts n i) (pause out i (pos b) c)
          (elim (pause_cases i b c h (twice_small b n k)) [
            | inl e ↦ inl e
            | inr (inl e) ↦ inr (
              pos b,
              e,
              attempts-no-panic n i (pos b) (λ e c q.
                  retry-no-panic n (suc i) b (some e) c (λ r. q cc) h
                    (omega (arith, double_pow b n))),
            )
            | inr (inr e) ↦ inr (
              pos (b + b),
              e,
              attempts-no-panic n i (pos (b + b)) (λ e c q.
                  retry-no-panic n (suc i) (b + b) (some e) c (λ r. q cc) (omega arith)
                    (omega (arith, double_pow b n))),
            )
          ])
          p

    -- A backoff of two nanoseconds at least that, doubled once for every attempt allowed, stays an
    -- int64 never makes a call panic.
    pub do_with_retry-no-panic :
        (n b : ℕ) (c : Conn)
        → cfg.max_retries ≡ pos n
        → cfg.initial_backoff ≡ pos b
        → 2 ≤ b
        → b * 2 ^ n < int64_bound
        → (do_with_retry out cfg m c).0 ≢ err panicked
    unfolding do_with_retry
    do_with_retry-no-panic n b c e f h k = simp (e, f) (retry-no-panic n 0 b none c (λ q. cc) h k)
