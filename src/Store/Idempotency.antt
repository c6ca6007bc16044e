-- ===== src/Store/Idempotency.antt =====
-- internal/adapters/db/repositories/idempotency.go with queries/idempotency_keys.sql.
use payments_hub.Base.{ℕ, ◌≡◌, arith, Option, none, some, List, [], ◌∷◌, ◌++◌, ltb, if◌then◌else◌}
use payments_hub.Base.Bytes.{Bytes, same}
use payments_hub.Base.Result.{ok, err, unique_violation}
use payments_hub.Store.Tables.{World, IdempotencyRecord}
use payments_hub.Store.Query.{Db, query}
use payments_hub.Store.Payments.{is_some, or_missing}

unfoldable pub find_record : Bytes → List IdempotencyRecord → Option IdempotencyRecord
find_record key [] = none
find_record key (r ∷ rs) = if same r.key key then some r else find_record key rs

unfoldable pub record_row : IdempotencyRecord → Db (Unit {0})
record_row r w =
    if is_some (find_record r.key w.idempotency)
    then (err unique_violation, w)
    else (ok tt, record w { idempotency = w.idempotency ++ (record r { created_at = w.now }) ∷ [] })

-- The payments are not touched.
pub record_row_lem : (r : IdempotencyRecord) (w : World) → (record_row r w).1.payments ≡ w.payments
unfolding record_row
record_row_lem r w = ground arith

-- `Insert`
unfoldable pub insert_record : IdempotencyRecord → Db (Unit {0})
unfolding record_row
insert_record r = query (record_row r)

-- `Get`: an expired record is returned like any other.
unfoldable pub get_record : Bytes → Db IdempotencyRecord
get_record key = query (λ w. (or_missing (find_record key w.idempotency), w))

drop_expired : ℕ → List IdempotencyRecord → List IdempotencyRecord
drop_expired now [] = []
drop_expired now (r ∷ rs) =
    if ltb r.expires_at now then drop_expired now rs else r ∷ drop_expired now rs

-- `DeleteExpired`
unfoldable pub delete_expired : Db (Unit {0})
unfolding drop_expired
delete_expired = query (λ w. (ok tt, record w { idempotency = drop_expired w.now w.idempotency }))
