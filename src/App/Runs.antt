-- ===== src/App/Runs.antt =====
-- internal/app/runs.go: the services on runs and on the payments in them.
pub mod Legal
pub mod Histories
pub mod Totals
pub mod Reschedule
use payments_hub.Base.{
  ℕ, ◌+◌, Bool, true, false, ◌&&◌, ◌||◌, not, Option, none, some, List, [], ◌∷◌, ◌++◌, ◌==◌, length,
  take, if◌then◌else◌,
}
use payments_hub.Base.Int.{ℤ, pos, add64}
use payments_hub.Base.Bytes.{Bytes, codes}
use payments_hub.Base.Result.{Error, unavailable, conflict, Result, ok, err}
use payments_hub.Payment.{Payment, PaymentType, pix, ted, other_type}
use payments_hub.Payment.Lifecycle.{
  Status, received, validated_local, under_review, prevalidated, approved, on_hold, canceled,
  rejected, is, transition,
}
use payments_hub.Run
use payments_hub.Store.{
  World, Fault, none_at_all, request_lost, reply_lost, PaymentEvent, RunItem, Db, pure, raise, lift,
  raise_if, query, try, new_uuid, clock, ◌>>=◌, ◌>>◌,
}
use payments_hub.Store.Payments.{get, update_status, replace_payment}
use payments_hub.Store.Events.{insert_event, event_row}
use payments_hub.Store.Runs.{
  insert_run, get_run, update_run_status, update_counters, attach_payment, detach_payment,
  list_items, find_run,
}

-- `CreateRun`
unfoldable pub create_run : ℕ → Db Run.Run
create_run date = do id ← new_uuid; insert_run (Run.new id date); pure (Run.new id date)

abbrev pub channel_of : PaymentType → Run.Channel
channel_of ted = Run.cnab_ted
channel_of _ = Run.pix_rest

-- `AttachPayment`
unfoldable pub attach : ℕ → ℕ → Db (Unit {0})
attach run_id payment_id = do
  r ← get_run run_id
  raise_if (not (Run.is r.status Run.open_run)) conflict
  p ← get payment_id
  raise_if (not (is p.status prevalidated)) conflict
  attach_payment run_id payment_id (channel_of p.type)

-- `DetachPayment`
unfoldable pub detach : ℕ → ℕ → Db (Unit {0})
detach run_id payment_id = do
  r ← get_run run_id
  raise_if (not (Run.is r.status Run.open_run)) conflict
  detach_payment run_id payment_id

abbrev pub by_user : Bytes → Bytes
by_user actor = codes "user:" ++ actor

abbrev pub moved : ℕ → Payment → Status → Bytes → Bytes → PaymentEvent
moved id p to actor reason = record {
  id = id;
  payment_id = p.id;
  from_status = some p.status;
  to_status = to;
  actor = by_user actor;
  reason = reason;
}

-- `UpdateStatus` and the event of it, with which each service on one payment ends.
unfoldable pub move : Payment → Status → Bytes → Bytes → Bytes → Db (Unit {0})
move p to reject_reason actor reason = do
  lift (transition p.status to)
  update_status p.id to [] reject_reason
  id ← new_uuid
  insert_event (moved id p to actor reason)

-- The variables of the loop of `ApproveRun`.
pub record Tally : Type 0 where
  pub total : ℤ
  pub pix_count : ℕ
  pub ted_count : ℕ

unfoldable pub tally : Payment → Tally → Tally
tally p t = elim p.type [
  | pix ↦ record {
    total = add64 t.total p.amount;
    pix_count = t.pix_count + 1;
    ted_count = t.ted_count;
  }
  | _ ↦ record {
    total = add64 t.total p.amount;
    pix_count = t.pix_count;
    ted_count = t.ted_count + 1;
  }
]

-- One turn of the loop of `ApproveRun`.
unfoldable pub approve_item : Bytes → RunItem → Tally → Db Tally
approve_item approved_by i t = do
  p ← get i.payment_id
  raise_if (not (is p.status prevalidated)) conflict
  move p approved [] approved_by (codes "run approved")
  pure (tally p t)

unfoldable pub approve_items : Bytes → List RunItem → Tally → Db Tally
approve_items approved_by [] t = pure t
approve_items approved_by (i ∷ is) t =
    approve_item approved_by i t >>= λ t'. approve_items approved_by is t'

abbrev pub empty_tally : Tally
empty_tally = record { total = pos 0; pix_count = 0; ted_count = 0 }

abbrev pub approved_run : Run.Run → ℕ → Bytes → ℕ → Tally → Run.Run
approved_run r now approved_by items t = record r {
  status = Run.approved;
  approved_at = some now;
  approved_by = approved_by;
  total_items = items;
  pix_count = t.pix_count;
  ted_count = t.ted_count;
  total_amount = t.total;
}

-- What `ApproveRun` writes behind the loop.
unfoldable pub close_approval : Run.Run → Bytes → ℕ → Tally → Db Run.Run
close_approval r approved_by items t = do
  now ← clock
  update_run_status r.id Run.approved approved_by (some now) none
  update_counters r.id items t.pix_count t.ted_count t.total
  pure (approved_run r now approved_by items t)

-- `ApproveRun`: no transaction, one statement after another.
unfoldable pub approve_run : ℕ → Bytes → Db Run.Run
approve_run run_id approved_by = do
  r ← get_run run_id
  lift (Run.transition r.status Run.approved)
  items ← list_items run_id
  t ← approve_items approved_by items empty_tally
  close_approval r approved_by (length items) t

-- `transitionPayment`, with the one status that its callers require.
unfoldable pub transition_payment : ℕ → Status → Bytes → Bytes → Status → Db (Unit {0})
transition_payment id to actor reason require_from = do
  p ← get id
  raise_if (not (is p.status require_from)) conflict
  move p to [] actor reason

-- `HoldPayment`
unfoldable pub hold_payment : ℕ → Bytes → Bytes → Db (Unit {0})
hold_payment id actor reason = transition_payment id on_hold actor reason approved

-- `UnholdPayment`
unfoldable pub unhold_payment : ℕ → Bytes → Bytes → Db (Unit {0})
unhold_payment id actor reason = transition_payment id approved actor reason on_hold

-- `CancelPayment`
unfoldable pub cancel_payment : ℕ → Bytes → Bytes → Db (Unit {0})
cancel_payment id actor reason = get id >>= λ p. move p canceled reason actor reason

-- `RejectPayment`
unfoldable pub reject_payment : ℕ → Bytes → Bytes → Db (Unit {0})
reject_payment id actor reason = get id >>= λ p. move p rejected reason actor reason
