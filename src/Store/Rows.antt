-- ===== src/Store/Rows.antt =====
-- What the statements of the ingress do to the tables when they end well.
use payments_hub.Base.{◌≡◌, refl, none, some, List, [], ◌∷◌, ◌++◌, arith}
use payments_hub.Base.Bytes.{same_refl}
use payments_hub.Base.Result.{ok}
use payments_hub.Payment.{Payment}
use payments_hub.Store.Tables.{World, PaymentEvent, IdempotencyRecord}
use payments_hub.Store.Payments.{insert_row, find_key}
use payments_hub.Store.Events.{event_row}
use payments_hub.Store.Idempotency.{record_row, find_record}

-- The tables that a replay reads, but for the idempotency keys.
abbrev pub Unchanged : World → World → Type 0
Unchanged w w' = (w'.payments ≡ w.payments) × (w'.payer_accounts ≡ w.payer_accounts)

pub insert_row_ok :
    (p : Payment) (w : World) (q : Payment) (w' : World)
    → insert_row p w ≡ (ok q, w')
    → (w'.payments ≡ w.payments ++ q ∷ [])
      × (w'.payer_accounts ≡ w.payer_accounts)
      × (q.idempotency_key ≡ p.idempotency_key)
      × (find_key p.idempotency_key w.payments ≡ none)
unfolding insert_row
insert_row_ok p w q w' h = elim (find_key p.idempotency_key w.payments) [
  | none ↦ ground arith
  | some r ↦ ground arith
]

pub event_row-Unchanged : (e : PaymentEvent) (w : World) → Unchanged w (event_row e w).1
unfolding event_row
event_row-Unchanged e w = ground arith

pub record_row_ok :
    (r : IdempotencyRecord) (w : World) (a : Unit {0}) (w' : World)
    → record_row r w ≡ (ok a, w')
    → Unchanged w w'
      × (w'.idempotency ≡ w.idempotency ++ (record r { created_at = w.now }) ∷ [])
      × (find_record r.key w.idempotency ≡ none)
unfolding record_row
record_row_ok r w a w' h = elim (find_record r.key w.idempotency) [
  | none ↦ ground arith
  | some s ↦ ground arith
]

pub find_key-append :
    (ps : List Payment) (q : Payment)
    → find_key q.idempotency_key ps ≡ none
    → find_key q.idempotency_key (ps ++ q ∷ []) ≡ some q
unfolding find_key
find_key-append [] q h = rw (same_refl q.idempotency_key) refl
find_key-append (p ∷ ps) q h = let ih = find_key-append ps q in ground arith

pub find_record-append :
    (rs : List IdempotencyRecord) (r : IdempotencyRecord)
    → find_record r.key rs ≡ none
    → find_record r.key (rs ++ r ∷ []) ≡ some r
unfolding find_record
find_record-append [] r h = rw (same_refl r.key) refl
find_record-append (s ∷ rs) r h = let ih = find_record-append rs r in ground arith
