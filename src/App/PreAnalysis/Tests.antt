-- ===== src/App/PreAnalysis/Tests.antt =====
-- The daily total at a payment that is stored already.
use payments_hub.Base.{◌≡◌, refl, true, some, [], ◌∷◌, arith}
use payments_hub.Base.Bytes.{codes}
use payments_hub.Base.Int.{pos, ◌+ℤ◌, IsInt64}
use payments_hub.Base.Result.{ok}
use payments_hub.Payment.{Payment, pix, pix_key, new}
use payments_hub.Store.{World, calm}
use payments_hub.App.PreAnalysis.{Rulebook, check_total, total_verdict, sum_since, is_counted}
use payments_hub.App.PreAnalysis.Order.{check_total-counts_twice}

abbrev rules : Rulebook
rules = record {
  blacklist = [];
  limits = [];
  duplicate_rules = [];
  day_start = λ now. 900;
  month_start = λ now. 0;
}

abbrev stored : Payment
stored = record (new 7 (codes "EXT-1") pix (pos 1500) 1 pix_key [] (codes "idem-1")) {
  client_id = some 3;
  created_at = 950;
}

abbrev world : World
world = record {
  payments = stored ∷ [];
  runs = [];
  items = [];
  events = [];
  idempotency = [];
  payer_accounts = 1 ∷ [];
  beneficiaries = [];
  clients = 3 ∷ [];
  postponements = [];
  faults = [];
  next_id = 100;
  now = 1000;
}

counted : is_counted 3 900 stored ≡ true
unfolding is_counted new
counted = refl

fits : IsInt64 (stored.amount +ℤ sum_since 3 900 [])
unfolding sum_since new ◌+ℤ◌
fits = (omega arith, omega arith)

check_total-counts_twice_example :
    check_total rules 3 rules.day_start (codes "daily") (pos 2000) stored (calm world) ≡ (
      ok (
          total_verdict rules
            (codes "daily")
            (stored.amount +ℤ sum_since 3 900 [])
            stored.amount
            (pos 2000)),
      calm world,
    )
check_total-counts_twice_example =
    check_total-counts_twice rules 3 rules.day_start (codes "daily") (pos 2000) stored [] [] world
      refl counted refl fits
