-- ===== src/Store/Payments.antt =====
-- internal/adapters/db/repositories/payment.go with queries/payments.sql. A row and a payment hold
-- the same fields: a text column is NULL exactly where the field is empty.
use payments_hub.Base.{
  ℕ, Bool, true, false, ◌&&◌, ◌||◌, not, Option, none, some, List, [], ◌∷◌, ◌++◌, ◌==◌, leb,
  if◌then◌else◌, take, drop,
}
use payments_hub.Base.Int.{pos, ltb_ℤ}
use payments_hub.Base.Bytes.{Bytes, same}
use payments_hub.Base.Result.{
  Result, ok, err, not_found, no_rows, unique_violation, check_violation, foreign_key_violation,
}
use payments_hub.Payment.{Payment, PaymentType, other_type, PayeeMethod, other_method}
use payments_hub.Payment.Lifecycle.{Status, is}
use payments_hub.Store.Query.{Db, query}

-- WHERE id = $1
unfoldable pub find_payment : ℕ → List Payment → Option Payment
find_payment id [] = none
find_payment id (p ∷ ps) = if p.id == id then some p else find_payment id ps

-- WHERE idempotency_key = $1
unfoldable pub find_key : Bytes → List Payment → Option Payment
find_key key [] = none
find_key key (p ∷ ps) = if same p.idempotency_key key then some p else find_key key ps

-- The id is the primary key, so that one row at most changes.
unfoldable pub replace_payment : ℕ → (Payment → Payment) → List Payment → List Payment
replace_payment id f [] = []
replace_payment id f (p ∷ ps) = if p.id == id then f p ∷ ps else p ∷ replace_payment id f ps

abbrev pub is_some {ℓ} : {A : Type ℓ} → Option A → Bool
is_some none = false
is_some (some _) = true

abbrev pub is_known_type : PaymentType → Bool
is_known_type (other_type _) = false
is_known_type _ = true

abbrev pub is_known_method : PayeeMethod → Bool
is_known_method (other_method _) = false
is_known_method _ = true

abbrev pub contains_id : ℕ → List ℕ → Bool
contains_id id [] = false
contains_id id (j ∷ js) = j == id || contains_id id js

-- A foreign key, which NULL always meets.
abbrev pub refers : Option ℕ → List ℕ → Bool
refers none ids = true
refers (some id) ids = contains_id id ids

-- The CHECK constraints of the table.
abbrev pub is_storable : Payment → Bool
is_storable p = ltb_ℤ (pos 0) p.amount && (is_known_type p.type && is_known_method p.payee_method)

-- `Insert`: the row with its times.
unfoldable pub insert_row : Payment → Db Payment
insert_row p w =
    if not (is_storable p)
    then (err check_violation, w)
    else if is_some (find_payment p.id w.payments)
        || is_some (find_key p.idempotency_key w.payments)
    then (err unique_violation, w)
    else if not (
        contains_id p.payer_account_id w.payer_accounts
        && refers p.beneficiary_id w.beneficiaries
        && refers p.client_id w.clients)
    then (err foreign_key_violation, w)
    else (let row : Payment = record p { created_at = w.now; updated_at = w.now } in
        (ok row, record w { payments = w.payments ++ row ∷ [] }))

unfoldable pub insert : Payment → Db Payment
unfolding insert_row
insert p = query (insert_row p)

abbrev pub or_missing {ℓ} : {A : Type ℓ} → Option A → Result A
or_missing none = err not_found
or_missing (some a) = ok a

-- `Get`
unfoldable pub get : ℕ → Db Payment
get id = query (λ w. (or_missing (find_payment id w.payments), w))

-- `GetByIdempotencyKey`
unfoldable pub get_by_key : Bytes → Db Payment
get_by_key key = query (λ w. (or_missing (find_key key w.payments), w))

-- COALESCE of a text that is NULL where it is empty.
abbrev pub coalesce : Bytes → Bytes → Bytes
coalesce [] old = old
coalesce (b ∷ s) old = b ∷ s

abbrev pub restate : Status → Bytes → Bytes → ℕ → Payment → Payment
restate to bank_ref reject_reason now p = record p {
  status = to;
  updated_at = now;
  bank_reference = coalesce bank_ref p.bank_reference;
  rejection_reason = coalesce reject_reason p.rejection_reason;
}

unfoldable pub update_row : ℕ → Status → Bytes → Bytes → Db (Unit {0})
update_row id to bank_ref reject_reason w =
    if is_some (find_payment id w.payments)
    then (
      ok tt,
      record w {
        payments = replace_payment id (restate to bank_ref reject_reason w.now) w.payments;
      },
    )
    else (err no_rows, w)

-- `UpdateStatus`; a missing row is an error, but not `ErrNotFound`.
unfoldable pub update_status : ℕ → Status → Bytes → Bytes → Db (Unit {0})
unfolding update_row
update_status id to bank_ref reject_reason = query (update_row id to bank_ref reject_reason)

unfoldable pub with_status : Status → List Payment → List Payment
with_status s [] = []
with_status s (p ∷ ps) = if is p.status s then p ∷ with_status s ps else with_status s ps

-- ORDER BY created_at DESC
place_newest : Payment → List Payment → List Payment
place_newest p [] = p ∷ []
place_newest p (q ∷ qs) =
    if leb q.created_at p.created_at then p ∷ q ∷ qs else q ∷ place_newest p qs

unfoldable pub newest_first : List Payment → List Payment
unfolding place_newest
newest_first [] = []
newest_first (p ∷ ps) = place_newest p (newest_first ps)

-- `ListByStatus`
unfoldable pub list_by_status : Status → ℕ → ℕ → Db (List Payment)
unfolding newest_first with_status
list_by_status s limit offset =
    query (λ w. (ok (take limit (drop offset (newest_first (with_status s w.payments)))), w))
