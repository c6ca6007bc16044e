-- ===== src/Store/Runs.antt =====
-- internal/adapters/db/repositories/run.go with queries/payment_runs.sql.
use payments_hub.Base.{
  ℕ, ◌≡◌, arith, Bool, false, ◌&&◌, ◌||◌, not, Option, none, some, List, [], ◌∷◌, ◌++◌, ◌==◌, leb,
  if◌then◌else◌,
}
use payments_hub.Base.Int.{ℤ}
use payments_hub.Base.Bytes.{Bytes}
use payments_hub.Base.Result.{ok, err, no_rows, unique_violation, foreign_key_violation}
use payments_hub.Run.{Run, Status, Channel}
use payments_hub.Store.Tables.{World, RunItem}
use payments_hub.Store.Query.{Db, query}
use payments_hub.Store.Payments.{find_payment, is_some, or_missing}

unfoldable pub find_run : ℕ → List Run → Option Run
find_run id [] = none
find_run id (r ∷ rs) = if r.id == id then some r else find_run id rs

unfoldable pub replace_run : ℕ → (Run → Run) → List Run → List Run
replace_run id f [] = []
replace_run id f (r ∷ rs) = (if r.id == id then f r else r) ∷ replace_run id f rs

unfoldable pub run_row : Run → Db (Unit {0})
run_row r w =
    if is_some (find_run r.id w.runs)
    then (err unique_violation, w)
    else (ok tt, record w { runs = w.runs ++ (record r { created_at = w.now }) ∷ [] })

pub run_row_lem : (r : Run) (w : World) → (run_row r w).1.payments ≡ w.payments
unfolding run_row
run_row_lem r w = ground arith

-- `Insert`
unfoldable pub insert_run : Run → Db (Unit {0})
unfolding run_row
insert_run r = query (run_row r)

-- `Get`
unfoldable pub get_run : ℕ → Db Run
get_run id = query (λ w. (or_missing (find_run id w.runs), w))

abbrev pub restate_run : Status → Bytes → Option ℕ → Option ℕ → Run → Run
restate_run st approved_by approved_at closed_at r = record r {
  status = st;
  approved_at = approved_at;
  approved_by = approved_by;
  closed_at = closed_at;
}

unfoldable pub status_row : ℕ → Status → Bytes → Option ℕ → Option ℕ → Db (Unit {0})
status_row id st approved_by approved_at closed_at w =
    if is_some (find_run id w.runs)
    then (
      ok tt,
      record w { runs = replace_run id (restate_run st approved_by approved_at closed_at) w.runs },
    )
    else (err no_rows, w)

pub status_row_lem :
    (id : ℕ) (st : Status) (by : Bytes) (at closed : Option ℕ) (w : World)
    → (status_row id st by at closed w).1.payments ≡ w.payments
unfolding status_row
status_row_lem id st by at closed w = ground arith

-- `UpdateStatus`: the times and the name are written too, also where they are empty.
unfoldable pub update_run_status : ℕ → Status → Bytes → Option ℕ → Option ℕ → Db (Unit {0})
unfolding status_row
update_run_status id st approved_by approved_at closed_at =
    query (status_row id st approved_by approved_at closed_at)

abbrev pub recount : ℕ → ℕ → ℕ → ℤ → Run → Run
recount total_items pix_count ted_count total_amount r = record r {
  total_items = total_items;
  total_amount = total_amount;
  pix_count = pix_count;
  ted_count = ted_count;
}

-- `UpdateCounters`: no row to change is no error.
unfoldable pub update_counters : ℕ → ℕ → ℕ → ℕ → ℤ → Db (Unit {0})
update_counters id total_items pix_count ted_count total_amount = query (λ w. (
  ok tt,
  record w { runs = replace_run id (recount total_items pix_count ted_count total_amount) w.runs },
))

abbrev pub is_attached : ℕ → List RunItem → Bool
is_attached payment_id [] = false
is_attached payment_id (i ∷ is) = i.payment_id == payment_id || is_attached payment_id is

unfoldable pub attach_row : ℕ → ℕ → Channel → Db (Unit {0})
attach_row run_id payment_id channel w =
    if is_attached payment_id w.items
    then (err unique_violation, w)
    else if not (is_some (find_run run_id w.runs) && is_some (find_payment payment_id w.payments))
    then (err foreign_key_violation, w)
    else (
      ok tt,
      record w {
        items =
            w.items
            ++ (record { run_id = run_id; payment_id = payment_id; channel = channel }) ∷ [];
      },
    )

pub attach_row_lem :
    (r p : ℕ) (c : Channel) (w : World) → (attach_row r p c w).1.payments ≡ w.payments
unfolding attach_row
attach_row_lem r p c w = ground arith

-- `AttachPayment`: a payment is in one run at most.
unfoldable pub attach_payment : ℕ → ℕ → Channel → Db (Unit {0})
unfolding attach_row
attach_payment run_id payment_id channel = query (attach_row run_id payment_id channel)

detached : ℕ → ℕ → List RunItem → List RunItem
detached run_id payment_id [] = []
detached run_id payment_id (i ∷ is) =
    if i.run_id == run_id && i.payment_id == payment_id
    then detached run_id payment_id is
    else i ∷ detached run_id payment_id is

-- `DetachPayment`: an item that is not there is no error.
unfoldable pub detach_payment : ℕ → ℕ → Db (Unit {0})
unfolding detached
detach_payment run_id payment_id =
    query (λ w. (ok tt, record w { items = detached run_id payment_id w.items }))

-- ORDER BY payment_id
place_item : RunItem → List RunItem → List RunItem
place_item i [] = i ∷ []
place_item i (j ∷ js) = if leb i.payment_id j.payment_id then i ∷ j ∷ js else j ∷ place_item i js

unfoldable pub items_of : ℕ → List RunItem → List RunItem
unfolding place_item
items_of run_id [] = []
items_of run_id (i ∷ is) =
    let rest = items_of run_id is in if i.run_id == run_id then place_item i rest else rest

-- `ListItems`
unfoldable pub list_items : ℕ → Db (List RunItem)
unfolding items_of
list_items run_id = query (λ w. (ok (items_of run_id w.items), w))
