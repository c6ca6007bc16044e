-- ===== src/App/PreAnalysis/Order.antt =====
-- In which order the rules decide, as long as no statement fails, and what the totals count.
use payments_hub.Base.{
  ℕ, ◌≡◌, refl, sym, ap, ◌∙◌, inl, inr, true, false, ◌||◌, some, List, [], ◌∷◌, ◌++◌, Bool-cases,
  arith,
}
use payments_hub.Base.Bytes.{Bytes, codes, same}
use payments_hub.Base.Int.{ℤ, pos, ◌+ℤ◌, leb_ℤ, IsInt64, +ℤ-swap}
use payments_hub.Base.Result.{Result, ok, err}
use payments_hub.Payment.{Payment}
use payments_hub.Store.{World, calm, pure, query, try, ◌>>=◌}
use payments_hub.App.PreAnalysis.{
  BlacklistEntry, ClientLimit, Rulebook, Verdict, verdict, blacklisted, find_limit, beneficiary_doc,
  check_blacklist, get_limit, check_single_limit, check_total, total_verdict, sum_since, is_counted,
  exceeds, evaluate, evaluate_for, bigint,
}

abbrev ap_action : Result Verdict → Bytes
ap_action (ok v) = v.action
ap_action (err _) = []

module _ (rules : Rulebook) (client : ℕ) (p : Payment) where
  -- As long as no statement fails: where the document of the payment's beneficiary has an active
  -- entry that concerns its client, the verdict is a rejection by the blacklist with the reason of
  -- the first such entry, whatever the limits and the duplicates say, and nothing is written.
  pub evaluate-blacklisted :
      (w : World) (e : BlacklistEntry) (es : List BlacklistEntry)
      → p.client_id ≡ some client
      → same (beneficiary_doc rules p) [] ≡ false
      → blacklisted (beneficiary_doc rules p) client rules.blacklist ≡ e ∷ es
      → evaluate rules p (calm w) ≡ (
        ok (
            verdict
              (codes "REJECT")
              (codes "beneficiary document "
                ++ beneficiary_doc rules p
                ++ codes " is blacklisted: "
                ++ e.reason)
              (codes "blacklist")),
        calm w,
      )
  unfolding evaluate evaluate_for check_blacklist query pure ◌>>=◌ beneficiary_doc
  evaluate-blacklisted w e es h k l = rw (h, k, l) refl

  -- As long as no statement fails: where no entry of the blacklist concerns the payment and the
  -- client's limit on a single payment, or its threshold of approval, is positive and below the
  -- amount, the verdict is a review, whatever the totals and the duplicates say, a duplicate rule
  -- that rejects included.
  pub evaluate-over_single :
      (w : World) (l : ClientLimit)
      → p.client_id ≡ some client
      → same (beneficiary_doc rules p) [] ≡ false
      → blacklisted (beneficiary_doc rules p) client rules.blacklist ≡ []
      → find_limit client rules.limits ≡ ok l
      → (exceeds rules l.max_single_cents p.amount
          || exceeds rules l.require_approval_above p.amount)
        ≡ true
      → ap_action (evaluate rules p (calm w)).0 ≡ codes "REVIEW"
  unfolding evaluate evaluate_for check_blacklist check_single_limit get_limit try query pure ◌>>=◌
      beneficiary_doc
  evaluate-over_single w l h k b f e =
      elim (Bool-cases (exceeds rules l.max_single_cents p.amount)) [
        | inl x ↦ rw (h, k, b, f, x) refl
        | inr x ↦
            rw
              (
                h,
                k,
                b,
                f,
                x,
                sym (ap (λ c. c || exceeds rules l.require_approval_above p.amount) x) ∙ e,
              )
              refl
      ]

-- The sum counts a payment once, wherever it stands.
sum_since-split :
    (client from : ℕ) (p : Payment) (before after : List Payment)
    → is_counted client from p ≡ true
    → sum_since client from (before ++ p ∷ after)
      ≡ p.amount +ℤ sum_since client from (before ++ after)
unfolding sum_since
sum_since-split client from p [] after h = rw (h) refl
sum_since-split client from p (q ∷ before) after h = elim (Bool-cases (is_counted client from q)) [
  | inl e ↦ rw (e) (
      ap (λ z. q.amount +ℤ z) (sum_since-split client from p before after h)
      ∙ +ℤ-swap q.amount p.amount (sum_since client from (before ++ after)))
  | inr e ↦ rw (e) (sum_since-split client from p before after h)
]

bigint-ok : (z : ℤ) → IsInt64 z → bigint z ≡ ok z
unfolding bigint
bigint-ok z h = ground arith

module _ (rules : Rulebook) (client : ℕ) (start : ℕ → ℕ) (period : Bytes) (limit : ℤ) where
  -- As long as no statement fails: for a payment that is stored already, was created within the
  -- period and is not rejected, cancelled or expired, the total to which its amount is added holds
  -- its amount already, so that it counts twice against a positive limit, as long as the total is
  -- an int64.
  pub check_total-counts_twice :
      (p : Payment) (before after : List Payment) (w : World)
      → w.payments ≡ before ++ p ∷ after
      → is_counted client (start w.now) p ≡ true
      → leb_ℤ limit (pos 0) ≡ false
      → IsInt64 (p.amount +ℤ sum_since client (start w.now) (before ++ after))
      → check_total rules client start period limit p (calm w) ≡ (
        ok (
            total_verdict rules period
              (p.amount +ℤ sum_since client (start w.now) (before ++ after))
              p.amount
              limit),
        calm w,
      )
  unfolding check_total query pure ◌>>=◌
  check_total-counts_twice p before after w h k l m =
      rw
        (
          l,
          h,
          sum_since-split client (start w.now) p before after k,
          bigint-ok (p.amount +ℤ sum_since client (start w.now) (before ++ after)) m,
        )
        refl
