-- ===== src/App/Runs/Reschedule.antt =====
-- ReschedulePayment of internal/app/runs.go: a payment goes to another day, in one transaction.
pub mod Written
pub mod Atomic
use payments_hub.Base.{
  ℕ, Bool, true, false, ◌||◌, not, Option, none, some, List, [], ◌∷◌, ◌++◌, ◌==◌, take,
  if◌then◌else◌,
}
use payments_hub.Base.Bytes.{Bytes, codes}
use payments_hub.Base.Result.{conflict, invalid_text, Result, ok, err}
use payments_hub.Payment.{Payment}
use payments_hub.Payment.Lifecycle.{
  Status, received, validated_local, under_review, prevalidated, on_hold, is,
}
use payments_hub.Run
use payments_hub.Store.{World, Postponement, PaymentEvent, RunItem, Db, raise_if, ◌>>=◌, ◌>>◌}
use payments_hub.Store.Payments.{get, is_some, find_payment, replace_payment}
use payments_hub.Store.Events.{event_row}
use payments_hub.Store.Runs.{find_run}
use payments_hub.Store.Transaction.{Part, exec, give_up, and_then, regardless, draw, transact}
use payments_hub.App.Runs.{by_user}

-- The cap on the reason, and `ReplaceAll` of its line feeds and carriage returns.
unfoldable pub clean : Bytes → Bytes
clean s = without_breaks (take 500 s)
  where
    without_breaks : Bytes → Bytes
    without_breaks [] = []
    without_breaks (b ∷ s) =
        let rest = without_breaks s in
        if b == 10 then 32 ∷ rest else if b == 13 then rest else b ∷ rest

-- The map `allowed`.
abbrev pub may_reschedule : Status → Bool
may_reschedule s =
    is s received || is s validated_local || is s prevalidated || is s on_hold || is s under_review

-- The status of the run with the payment's item; a payment has one item at most.
abbrev pub status_of : Option Run.Run → Option Run.Status
status_of none = none
status_of (some r) = some r.status

unfoldable pub run_of : ℕ → List RunItem → List Run.Run → Option Run.Status
run_of id [] runs = none
run_of id (i ∷ is) runs =
    if i.payment_id == id then status_of (find_run i.run_id runs) else run_of id is runs

abbrev pub read_run : ℕ → Db (Option Run.Status)
read_run id w = (ok (run_of id w.items w.runs), w)

abbrev pub is_fixed : Run.Status → Bool
is_fixed s = Run.is s Run.approved || Run.is s Run.executing || Run.is s Run.partially_settled

abbrev pub blocks : Result (Option Run.Status) → Bool
blocks (ok (some s)) = is_fixed s
blocks _ = false

unfoldable pub without : ℕ → List RunItem → List RunItem
without id [] = []
without id (i ∷ is) = let rest = without id is in if i.payment_id == id then rest else i ∷ rest

-- DELETE FROM payment_run_items
abbrev pub drop_items : ℕ → Db (Unit {0})
drop_items id w = (ok tt, record w { items = without id w.items })

abbrev pub postponed : ℕ → ℕ → Payment → Payment
postponed date now p = record p {
  scheduled_for = some date;
  status = prevalidated;
  updated_at = now;
}

-- What other packages say: `Format` of a date, the day of a time in the zone of the database, and
-- which texts the encoding of the database admits.
pub record Given : Type 0 where
  pub format_date : ℕ → Bytes
  pub day_of : ℕ → ℕ
  pub is_text : Bytes → Bool

-- COALESCE keeps the first day from which a payment was postponed.
abbrev pub noted : ℕ → ℕ → Bytes → List Postponement → List Postponement
noted id today reason [] = (record { payment_id = id; from = today; reason = reason }) ∷ []
noted id today reason (r ∷ rs) =
    let rest = noted id today reason rs in
    if r.payment_id == id then (record r { reason = reason }) ∷ rs else r ∷ rest

-- UPDATE payments; no row to change is no error.
unfoldable pub postpone : Given → ℕ → ℕ → Bytes → Db (Unit {0})
postpone given id date reason w =
    if not (given.is_text reason)
    then (err invalid_text, w)
    else if is_some (find_payment id w.payments)
    then (
      ok tt,
      record w {
        payments = replace_payment id (postponed date w.now) w.payments;
        postponements = noted id (given.day_of w.now) reason w.postponements;
      },
    )
    else (ok tt, w)

module _ (given : Given) where
  abbrev pub rescheduling : ℕ → Payment → ℕ → Bytes → Bytes → PaymentEvent
  rescheduling id p date actor reason = record {
    id = id;
    payment_id = p.id;
    from_status = some p.status;
    to_status = prevalidated;
    actor = by_user actor;
    reason = codes "rescheduled to " ++ given.format_date date ++ codes ": " ++ reason;
  }

  -- The statements after the check of the run.
  unfoldable pub write_all : Payment → ℕ → Bytes → Bytes → Part (Unit {0})
  write_all p date actor reason = regardless (exec (drop_items p.id)) λ _.
      and_then (exec (postpone given p.id date reason))
        λ _. draw λ id. exec (event_row (rescheduling id p date actor reason))

  unfoldable pub reschedule_in : Payment → ℕ → Bytes → Bytes → Part (Unit {0})
  reschedule_in p date actor reason =
      regardless (exec (read_run p.id))
        λ r. if blocks r then give_up conflict else write_all p date actor reason

  -- `ReschedulePayment`
  unfoldable pub reschedule_payment : ℕ → ℕ → Bytes → Bytes → Db (Unit {0})
  reschedule_payment id date actor reason = do
    p ← get id
    raise_if (not (may_reschedule p.status)) conflict
    transact (reschedule_in p date actor (clean reason))
