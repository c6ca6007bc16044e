-- ===== src/Queue/Tests.antt =====
-- The theorems on the workers at a small database.
use payments_hub.Base.{◌≤◌, ◌≡◌, refl, false, some, [], ◌∷◌, arith}
use payments_hub.Base.Int.{pos}
use payments_hub.Base.Bytes.{codes}
use payments_hub.Base.Result.{ok}
use payments_hub.Payment.{Payment, pix, pix_key, text, new}
use payments_hub.Payment.Lifecycle.{prevalidated, canceled, settled, approved, is}
use payments_hub.Store.{calm, World, none_at_all, reply_lost}
use payments_hub.Store.Payments.{find_payment, replace_payment, restate}
use payments_hub.Queue.{Gateway, PixResult}
use payments_hub.Queue.Submission.{submit_pix}
use payments_hub.Queue.Unguarded.{submits_unapproved}
use payments_hub.Queue.Grouping.{auto_group}
use payments_hub.Queue.Grouping.Once.{count_items, auto_group_once}

abbrev ready : Payment
ready =
    record (new 7 (codes "EXT-1") pix (pos 1500) 1 pix_key
      ((codes "key_value", text (codes "a@b.c")) ∷ []) (codes "idem-1")) { status = prevalidated }

abbrev dropped : Payment
dropped = record ready { id = 8; status = canceled; idempotency_key = codes "idem-2" }

abbrev world : World
world = record {
  payments = ready ∷ dropped ∷ [];
  runs = [];
  items = [];
  events = [];
  idempotency = [];
  payer_accounts = 1 ∷ [];
  beneficiaries = [];
  clients = 3 ∷ [];
  postponements = [];
  faults = none_at_all ∷ none_at_all ∷ reply_lost ∷ [];
  next_id = 100;
  now = 1000;
}

abbrev settles : PixResult
settles = record { bank_reference = codes "B1"; status = settled; reason = [] }

-- A bank that settles everything.
abbrev bank : Gateway
bank = record { send_pix = λ _ _. ok settles; get_pix_status = λ _ _. ok settles }

no_items : count_items 7 world.items ≤ 1
unfolding count_items
no_items = omega arith

auto_group_once_example :
    ((auto_group world).1.payments ≡ world.payments)
    × (count_items 7 (auto_group world).1.items ≤ 1)
auto_group_once_example = auto_group_once 7 world no_items

stored : find_payment dropped.id world.payments ≡ some dropped
unfolding find_payment new
stored = refl

is_canceled : is dropped.status approved ≡ false
is_canceled = refl

submits_unapproved_example :
    (submit_pix bank dropped.id (calm world)).1.payments
    ≡ replace_payment dropped.id (restate settled (codes "B1") [] 1000) world.payments
submits_unapproved_example = submits_unapproved bank dropped settles world stored is_canceled refl
