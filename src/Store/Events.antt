-- ===== src/Store/Events.antt =====
-- internal/adapters/db/repositories/payment_event.go: the audit trail. The table only grows.
use payments_hub.Base.{
  ℕ, ◌≡◌, arith, Bool, false, ◌||◌, not, List, [], ◌∷◌, ◌++◌, ◌==◌, if◌then◌else◌,
}
use payments_hub.Base.Result.{ok, err, unique_violation, foreign_key_violation}
use payments_hub.Store.Tables.{World, PaymentEvent}
use payments_hub.Store.Query.{Db, pure, query, new_uuid, ◌>>=◌}
use payments_hub.Store.Payments.{find_payment, is_some}

abbrev pub has_event : ℕ → List PaymentEvent → Bool
has_event id [] = false
has_event id (e ∷ es) = e.id == id || has_event id es

unfoldable pub event_row : PaymentEvent → Db (Unit {0})
event_row e w =
    if has_event e.id w.events
    then (err unique_violation, w)
    else if not (is_some (find_payment e.payment_id w.payments))
    then (err foreign_key_violation, w)
    else (ok tt, record w { events = w.events ++ e ∷ [] })

-- The payments are not touched.
pub event_row_lem : (e : PaymentEvent) (w : World) → (event_row e w).1.payments ≡ w.payments
unfolding event_row
event_row_lem e w = ground arith

unfoldable pub with_id : PaymentEvent → Db PaymentEvent
with_id e = if e.id == 0 then new_uuid >>= (λ id. pure (record e { id = id })) else pure e

-- `Insert`: an event without an id gets a new one.
unfoldable pub insert_event : PaymentEvent → Db (Unit {0})
insert_event e = with_id e >>= λ identified. query (event_row identified)

-- `ListForPayment`, the oldest first.
unfoldable pub events_of : ℕ → List PaymentEvent → List PaymentEvent
events_of id [] = []
events_of id (e ∷ es) = if e.payment_id == id then e ∷ events_of id es else events_of id es

unfoldable pub list_for_payment : ℕ → Db (List PaymentEvent)
unfolding events_of
list_for_payment id = query (λ w. (ok (events_of id w.events), w))
