-- ===== src/App/PreAnalysis.antt =====
-- internal/app/preanalysis.go: the rules that a tenant's payment is checked against, with the
-- queries of internal/adapters/db/dbgen that read the tables of the rules.
pub mod Order
mod Tests
use payments_hub.Base.{
  ℕ, suc, ◌+◌, ◌*◌, ◌==◌, Bool, true, false, not, ◌&&◌, ◌||◌, leb, ltb, Option, none, some, List,
  [], ◌∷◌, ◌++◌, length, take, if◌then◌else◌,
}
use payments_hub.Base.Bytes.{Bytes, codes, same}
use payments_hub.Base.Decimal.{decimal, signed_decimal}
use payments_hub.Base.Int.{
  ℤ, pos, negsuc, pos_part, neg_part, ◌+ℤ◌, ltb_ℤ, leb_ℤ, add64, int64_bound,
}
use payments_hub.Base.Result.{Result, ok, err, no_rows, malformed}
use payments_hub.Payment.{Payment, field}
use payments_hub.Payment.Lifecycle.{Status, rejected, canceled, expired, is}
use payments_hub.Store.{World, Db, pure, query, try, clock, ◌>>=◌}

-- Rows of blacklist_entries, client_limits and duplicate_rules, as far as the queries read them.
pub record BlacklistEntry : Type 0 where
  pub client_id : Option ℕ
  pub document_number : Bytes
  pub reason : Bytes
  pub active : Bool

pub record ClientLimit : Type 0 where
  pub client_id : ℕ
  pub daily_limit_cents : ℤ
  pub monthly_limit_cents : ℤ
  pub max_single_cents : ℤ
  pub require_approval_above : ℤ
  pub active : Bool

pub record DuplicateRule : Type 0 where
  pub client_id : ℕ
  pub window_hours : ℤ
  pub action : Bytes
  pub active : Bool

-- The tables of the rules, which no payment changes, and the beginning of the day and of the month
-- of a time, in the zone of the database.
pub record Rulebook : Type 0 where
  pub blacklist : List BlacklistEntry
  pub limits : List ClientLimit
  pub duplicate_rules : List DuplicateRule
  pub day_start : ℕ → ℕ
  pub month_start : ℕ → ℕ

pub record Verdict : Type 0 where
  pub action : Bytes
  pub reason : Bytes
  pub rule : Bytes

abbrev pub verdict : Bytes → Bytes → Bytes → Verdict
verdict action reason rule = record { action = action; reason = reason; rule = rule }

-- client_id IS NULL OR client_id = $2
abbrev concerns : ℕ → Option ℕ → Bool
concerns client none = true
concerns client (some c) = c == client

-- `CheckBlacklist`
unfoldable pub blacklisted : Bytes → ℕ → List BlacklistEntry → List BlacklistEntry
blacklisted doc client [] = []
blacklisted doc client (e ∷ es) =
    let rest = blacklisted doc client es in
    if same e.document_number doc && e.active && concerns client e.client_id then e ∷ rest else rest

-- `GetClientLimit`
unfoldable pub find_limit : ℕ → List ClientLimit → Result ClientLimit
find_limit client [] = err no_rows
find_limit client (l ∷ ls) =
    if l.client_id == client && l.active then ok l else find_limit client ls

-- `GetDuplicateRule`
unfoldable pub find_rule : ℕ → List DuplicateRule → Result DuplicateRule
find_rule client [] = err no_rows
find_rule client (r ∷ rs) = if r.client_id == client && r.active then ok r else find_rule client rs

abbrev pub is_of : ℕ → Payment → Bool
is_of client p = elim p.client_id [ none ↦ false | some c ↦ c == client ]

-- status NOT IN ('REJECTED', 'CANCELED', 'EXPIRED')
abbrev pub counts : Payment → Bool
counts p = not (is p.status rejected || is p.status canceled || is p.status expired)

unfoldable pub is_counted : ℕ → ℕ → Payment → Bool
is_counted client from p = is_of client p && leb from p.created_at && counts p

-- The sum of `SumPaymentsTodayByClient` and `SumPaymentsMonthByClient`, since a time.
unfoldable pub sum_since : ℕ → ℕ → List Payment → ℤ
sum_since client from [] = pos 0
sum_since client from (p ∷ ps) =
    let rest = sum_since client from ps in
    if is_counted client from p then p.amount +ℤ rest else rest

-- `::bigint`
unfoldable pub bigint : ℤ → Result ℤ
bigint z =
    if ltb (pos_part z) int64_bound && leb (neg_part z) int64_bound then ok z else err malformed

-- `FindDuplicatePayments`, whose window begins `hours` before `now`. The limit of five rows counts,
-- their order does not.
unfoldable pub duplicates : ℕ → ℕ → ℤ → ℤ → ℕ → ℕ → List Payment → List Payment
duplicates client beneficiary amount hours now id [] = []
duplicates client beneficiary amount hours now id (p ∷ ps) =
    let rest = duplicates client beneficiary amount hours now id ps in
    if is_of client p
      && elim p.beneficiary_id [ none ↦ false | some b ↦ b == beneficiary ]
      && leb_ℤ p.amount amount
      && leb_ℤ amount p.amount
      && ltb (now + neg_part hours * 3600) (p.created_at + pos_part hours * 3600)
      && counts p
      && not (p.id == id)
    then p ∷ rest
    else rest

module _ (rules : Rulebook) where
  abbrev or_payee : Option Bytes → Option Bytes → Bytes
  or_payee (some (c ∷ s)) _ = c ∷ s
  or_payee _ (some doc) = doc
  or_payee _ none = []

  unfoldable pub beneficiary_doc : Payment → Bytes
  beneficiary_doc p =
      or_payee (field (codes "document_number") p.beneficiary_snapshot)
        (field (codes "document_number") p.payee)

  abbrev pub on_blacklist : Bytes → List BlacklistEntry → Option Verdict
  on_blacklist doc [] = none
  on_blacklist doc (e ∷ _) = some (
      verdict (codes "REJECT")
        (codes "beneficiary document " ++ doc ++ codes " is blacklisted: " ++ e.reason)
        (codes "blacklist"))

  unfoldable pub check_blacklist : ℕ → Payment → Db (Option Verdict)
  check_blacklist client p = if same (beneficiary_doc p) [] then pure none else do
    entries ← query (λ w. (ok (blacklisted (beneficiary_doc p) client rules.blacklist), w))
    pure (on_blacklist (beneficiary_doc p) entries)

  unfoldable pub get_limit : ℕ → Db ClientLimit
  get_limit client = query (λ w. (find_limit client rules.limits, w))

  abbrev pub review : Bytes → Bytes → Option Verdict
  review reason rule = some (verdict (codes "REVIEW") reason rule)

  -- `limit > 0 && amount > limit`
  abbrev pub exceeds : ℤ → ℤ → Bool
  exceeds limit amount = ltb_ℤ (pos 0) limit && ltb_ℤ limit amount

  abbrev pub single_verdict : Payment → ClientLimit → Option Verdict
  single_verdict p l =
      if exceeds l.max_single_cents p.amount
      then review
          (codes "amount "
            ++ signed_decimal p.amount
            ++ codes " exceeds single-payment limit "
            ++ signed_decimal l.max_single_cents)
          (codes "max_single")
      else if exceeds l.require_approval_above p.amount
      then review
          (codes "amount "
            ++ signed_decimal p.amount
            ++ codes " above approval threshold "
            ++ signed_decimal l.require_approval_above)
          (codes "approval_threshold")
      else none

  -- Every error of the query of the limits counts as no limit.
  unfoldable pub check_single_limit : ℕ → Payment → Db (Option Verdict)
  check_single_limit client p = try (get_limit client) found
    where
      found : Result ClientLimit → Db (Option Verdict)
      found (err _) = pure none
      found (ok l) = pure (single_verdict p l)

  -- The end of both checks of a total.
  abbrev pub total_verdict : Bytes → ℤ → ℤ → ℤ → Option Verdict
  total_verdict period total amount limit =
      if ltb_ℤ limit (add64 total amount)
      then review
          (period
            ++ codes " total "
            ++ signed_decimal total
            ++ codes " + "
            ++ signed_decimal amount
            ++ codes " would exceed limit "
            ++ signed_decimal limit)
          (period ++ codes "_limit")
      else none

  unfoldable pub check_total : ℕ → (ℕ → ℕ) → Bytes → ℤ → Payment → Db (Option Verdict)
  check_total client start period limit p = if leb_ℤ limit (pos 0) then pure none else do
    total ← query (λ w. (bigint (sum_since client (start w.now) w.payments), w))
    pure (total_verdict period total p.amount limit)

  unfoldable pub check_daily_limit : ℕ → Payment → Db (Option Verdict)
  check_daily_limit client p = try (get_limit client) found
    where
      found : Result ClientLimit → Db (Option Verdict)
      found (err _) = pure none
      found (ok l) = check_total client rules.day_start (codes "daily") l.daily_limit_cents p

  unfoldable pub check_monthly_limit : ℕ → Payment → Db (Option Verdict)
  check_monthly_limit client p = try (get_limit client) found
    where
      found : Result ClientLimit → Db (Option Verdict)
      found (err _) = pure none
      found (ok l) = check_total client rules.month_start (codes "monthly") l.monthly_limit_cents p

  abbrev pub duplicate_verdict : DuplicateRule → List Payment → Option Verdict
  duplicate_verdict r [] = none
  duplicate_verdict r dupes = some (
      verdict r.action
        (codes "duplicate detected: "
          ++ decimal (length dupes)
          ++ codes " similar payments in last "
          ++ signed_decimal r.window_hours
          ++ codes "h")
        (codes "duplicate"))

  abbrev with_rule : ℕ → Payment → DuplicateRule → Option ℕ → Db (Option Verdict)
  with_rule client p r none = pure none
  with_rule client p r (some b) = do
    now ← clock
    dupes ←
        query
          (λ w. (ok (take 5 (duplicates client b p.amount r.window_hours now p.id w.payments)), w))
    pure (duplicate_verdict r dupes)

  unfoldable pub check_duplicate : ℕ → Payment → Db (Option Verdict)
  check_duplicate client p = try (query (λ w. (find_rule client rules.duplicate_rules, w))) found
    where
      found : Result DuplicateRule → Db (Option Verdict)
      found (err _) = pure none
      found (ok r) = with_rule client p r p.beneficiary_id

  -- `else if verdict != nil { return verdict, nil }`
  abbrev pub or_next : Db Verdict → Option Verdict → Db Verdict
  or_next next none = next
  or_next next (some v) = pure v

  unfoldable pub evaluate_for : Option ℕ → Payment → Db Verdict
  evaluate_for none p = pure (verdict (codes "ALLOW") [] (codes "no_client"))
  evaluate_for (some client) p =
      check_blacklist client p
      >>= or_next (
          check_single_limit client p
          >>= or_next (
              check_daily_limit client p
              >>= or_next (
                  check_monthly_limit client p
                  >>= or_next (
                      check_duplicate client p
                      >>= or_next (pure (verdict (codes "ALLOW") [] (codes "all_passed")))))))

  -- `Evaluate`
  unfoldable pub evaluate : Payment → Db Verdict
  evaluate p = evaluate_for p.client_id p
