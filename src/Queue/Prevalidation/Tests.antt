-- ===== src/Queue/Prevalidation/Tests.antt =====
-- The worker at a payment whose beneficiary is blacklisted.
use payments_hub.Base.{◌≡◌, refl, false, true, some, none, [], ◌∷◌}
use payments_hub.Base.Bytes.{codes, same}
use payments_hub.Base.Int.{pos}
use payments_hub.Base.Result.{ok}
use payments_hub.Payment.{Payment, pix, pix_key, text, new, field}
use payments_hub.Payment.Lifecycle.{received}
use payments_hub.Store.{World, none_at_all, reply_lost}
use payments_hub.Store.Payments.{find_payment}
use payments_hub.Banks.Pix.{PrevalidatePixResult}
use payments_hub.App.PreAnalysis.{Rulebook, BlacklistEntry, blacklisted, beneficiary_doc}
use payments_hub.Queue.Prevalidation.{Prevalidate, prevalidate}
use payments_hub.Queue.Prevalidation.Barred.{Barred, IsListed, prevalidate-blacklisted}

abbrev barred_order : Payment
barred_order =
    record (new 8 (codes "EXT-1") pix (pos 1500) 1 pix_key
      ((codes "document_number", text (codes "123")) ∷ []) (codes "idem-1")) {
        status = received;
        client_id = some 3;
      }

abbrev world : World
world = record {
  payments = barred_order ∷ [];
  runs = [];
  items = [];
  events = [];
  idempotency = [];
  payer_accounts = 1 ∷ [];
  beneficiaries = [];
  clients = 3 ∷ [];
  postponements = [];
  faults = none_at_all ∷ none_at_all ∷ reply_lost ∷ [];
  next_id = 100;
  now = 1000;
}

abbrev known : PrevalidatePixResult
known = record { verdict = codes "OK"; reason = []; owner_name = []; owner_doc = [] }

-- A bank that knows every key.
abbrev bank : Prevalidate
bank request now = ok known

stored : find_payment barred_order.id world.payments ≡ some barred_order
unfolding find_payment new
stored = refl

abbrev entry : BlacklistEntry
entry = record {
  client_id = none;
  document_number = codes "123";
  reason = codes "fraud";
  active = true;
}

abbrev rules : Rulebook
rules = record {
  blacklist = entry ∷ [];
  limits = [];
  duplicate_rules = [];
  day_start = λ now. 900;
  month_start = λ now. 0;
}

has_document : same (beneficiary_doc rules barred_order) [] ≡ false
unfolding beneficiary_doc field new
has_document = refl

listed : blacklisted (beneficiary_doc rules barred_order) 3 rules.blacklist ≡ entry ∷ []
unfolding beneficiary_doc blacklisted field new
listed = refl

barred_order-IsListed : IsListed rules barred_order
barred_order-IsListed = (3, entry, [], refl, has_document, listed)

prevalidate-blacklisted_example :
    Barred barred_order.id world (prevalidate bank (some rules) barred_order.id world).1
prevalidate-blacklisted_example =
    prevalidate-blacklisted bank rules barred_order.id barred_order world stored
      barred_order-IsListed
