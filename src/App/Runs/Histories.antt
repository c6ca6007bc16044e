-- ===== src/App/Runs/Histories.antt =====
-- What any sequence of calls of the services on runs makes of the payments (runs.go).
use payments_hub.Base.{
  ℕ, refl, ◌≡◌, ap, ◌∙◌, inl, inr, true, arith, Option, none, some, List, [], ◌∷◌, length,
}
use payments_hub.Base.Int.{ℤ}
use payments_hub.Base.Bytes.{Bytes}
use payments_hub.Base.Result.{Result}
use payments_hub.Payment.Lifecycle.{Status, prevalidated, approved, on_hold, canceled, rejected}
use payments_hub.Run
use payments_hub.Store.{World}
use payments_hub.Store.Always.{
  Always, Always-bind, Always-then, Always-lift, Always-pure, Always-raise_if, Always-query,
  Always-new_uuid, Always-clock,
}
use payments_hub.Store.Evolve.{
  Evolves, evolution, Evolves-same, replace-AllLater, find_payment-id, is_pending, go_back, stay,
}
use payments_hub.Store.Transaction.{same_rows}
use payments_hub.App.Runs.Reschedule.{Given, reschedule_payment, may_reschedule, postponed}
use payments_hub.App.Runs.Reschedule.Written.{wrote}
use payments_hub.App.Runs.Reschedule.Atomic.{AllOrNothing, reschedule_payment_atomic, rescheduled}
use payments_hub.Store.Payments.{get, find_payment}
use payments_hub.Store.Runs.{
  insert_run, get_run, update_run_status, update_counters, attach_payment, detach_payment,
  list_items, run_row_lem, status_row_lem, attach_row_lem,
}
use payments_hub.App.Runs.{
  create_run, attach, detach, approve_run, close_approval, hold_payment, unhold_payment,
  cancel_payment, reject_payment, Tally, empty_tally, channel_of, approved_run,
}
use payments_hub.App.Runs.Legal.{
  Quiet-Evolves, got-Evolves, move-Evolves, transition_payment-Evolves, items-Evolves,
}

get_run-Evolves : (id : ℕ) → Always Evolves (get_run id)
unfolding get_run
get_run-Evolves id = Always-query evolution _ (Quiet-Evolves _ (λ w. refl))

list_items-Evolves : (id : ℕ) → Always Evolves (list_items id)
unfolding list_items
list_items-Evolves id = Always-query evolution _ (Quiet-Evolves _ (λ w. refl))

update_run_status-Evolves :
    (id : ℕ) (st : Run.Status) (by : Bytes) (at closed : Option ℕ)
    → Always Evolves (update_run_status id st by at closed)
unfolding update_run_status
update_run_status-Evolves id st by at closed =
    Always-query evolution _ (Quiet-Evolves _ (status_row_lem id st by at closed))

update_counters-Evolves :
    (id items pix ted : ℕ) (total : ℤ) → Always Evolves (update_counters id items pix ted total)
unfolding update_counters
update_counters-Evolves id items pix ted total =
    Always-query evolution _ (Quiet-Evolves _ (λ w. refl))

create_run-Evolves : (date : ℕ) → Always Evolves (create_run date)
unfolding create_run insert_run
create_run-Evolves date = Always-bind evolution _ _ (Always-new_uuid evolution) (λ id.
    Always-then evolution _ _
      (Always-query evolution _ (Quiet-Evolves _ (run_row_lem (Run.new id date))))
      (Always-pure evolution (Run.new id date)))

get-Evolves : (id : ℕ) → Always Evolves (get id)
unfolding get
get-Evolves id = Always-query evolution _ (Quiet-Evolves _ (λ w. refl))

attach-Evolves : (run_id payment_id : ℕ) → Always Evolves (attach run_id payment_id)
unfolding attach attach_payment
attach-Evolves run_id payment_id = Always-bind evolution _ _ (get_run-Evolves run_id) (λ r.
    Always-then evolution _ _ (Always-raise_if evolution _ _) (
      Always-bind evolution _ _ (get-Evolves payment_id) (λ p.
        Always-then evolution _ _ (Always-raise_if evolution _ _) (
          Always-query evolution _
            (Quiet-Evolves _ (attach_row_lem run_id payment_id (channel_of p.type)))))))

detach-Evolves : (run_id payment_id : ℕ) → Always Evolves (detach run_id payment_id)
unfolding detach detach_payment
detach-Evolves run_id payment_id = Always-bind evolution _ _ (get_run-Evolves run_id) (λ r.
    Always-then evolution _ _ (Always-raise_if evolution _ _)
      (Always-query evolution _ (Quiet-Evolves _ (λ w. refl))))

close_approval-Evolves :
    (r : Run.Run) (by : Bytes) (items : ℕ) (t : Tally)
    → Always Evolves (close_approval r by items t)
unfolding close_approval
close_approval-Evolves r by items t = Always-bind evolution _ _ (Always-clock evolution) (λ now.
    Always-then evolution _ _ (update_run_status-Evolves r.id Run.approved by (some now) none) (
      Always-then evolution _ _ (update_counters-Evolves r.id items t.pix_count t.ted_count t.total)
        (Always-pure evolution (approved_run r now by items t))))

approve_run-Evolves : (run_id : ℕ) (by : Bytes) → Always Evolves (approve_run run_id by)
unfolding approve_run
approve_run-Evolves run_id by = Always-bind evolution _ _ (get_run-Evolves run_id) (λ r.
    Always-then evolution _ _ (Always-lift evolution (Run.transition r.status Run.approved)) (
      Always-bind evolution _ _ (list_items-Evolves run_id) (λ items.
        Always-bind evolution _ _ (items-Evolves by items empty_tally)
          (close_approval-Evolves r by (length items)))))

pending_of : (s : Status) → may_reschedule s ≡ true → is_pending s ≡ true
pending_of s h = ground arith

reschedule-Evolves :
    (given : Given) (id date : ℕ) (actor reason : Bytes) (w : World)
    → Evolves w (reschedule_payment given id date actor reason w).1
reschedule-Evolves given id date actor reason w =
    outcome (reschedule_payment given id date actor reason w)
      (reschedule_payment_atomic given id date actor reason w)
  where
    outcome :
        (q : Result (Unit {0}) × World)
        → AllOrNothing given id date actor reason w q
        → Evolves w q.1
    outcome q (inl (same_rows a _ _ _ _, _)) = Evolves-same w q.1 a
    outcome q (inr (rescheduled p found may _ (wrote a _ _ _ _ _))) = rw a (
        replace-AllLater p.id (postponed date w.now) w.payments p
          (ap (λ j. find_payment j w.payments) (find_payment-id id w.payments p found) ∙ found)
          (refl, refl, refl, go_back p.status prevalidated (pending_of p.status may) (stay _)))

-- A call of one of the services of runs.go that write.
pub data Command : Type 0 where
  create : ℕ → Command
  add_item drop_item : ℕ → ℕ → Command
  approve : ℕ → Bytes → Command
  hold unhold cancel reject : ℕ → Bytes → Bytes → Command
  reschedule : ℕ → ℕ → Bytes → Bytes → Command

module _ (given : Given) where
  -- The world behind the call, whatever it answers.
  unfoldable pub served : Command → World → World
  served (create date) w = (create_run date w).1
  served (add_item r p) w = (attach r p w).1
  served (drop_item r p) w = (detach r p w).1
  served (approve r by) w = (approve_run r by w).1
  served (hold p actor reason) w = (hold_payment p actor reason w).1
  served (unhold p actor reason) w = (unhold_payment p actor reason w).1
  served (cancel p actor reason) w = (cancel_payment p actor reason w).1
  served (reject p actor reason) w = (reject_payment p actor reason w).1
  served (reschedule p date actor reason) w = (reschedule_payment given p date actor reason w).1

  unfoldable pub served_all : List Command → World → World
  served_all [] w = w
  served_all (c ∷ cs) w = served_all cs (served c w)

  served-Evolves : (c : Command) (w : World) → Evolves w (served c w)
  unfolding served Always hold_payment unhold_payment cancel_payment reject_payment
  served-Evolves (create date) = create_run-Evolves date
  served-Evolves (add_item r p) = attach-Evolves r p
  served-Evolves (drop_item r p) = detach-Evolves r p
  served-Evolves (approve r by) = approve_run-Evolves r by
  served-Evolves (hold p actor reason) = transition_payment-Evolves p on_hold actor reason approved
  served-Evolves (unhold p actor reason) =
      transition_payment-Evolves p approved actor reason on_hold
  served-Evolves (cancel id actor reason) =
      got-Evolves id _ (λ w p found. move-Evolves p canceled reason actor reason w found)
  served-Evolves (reject id actor reason) =
      got-Evolves id _ (λ w p found. move-Evolves p rejected reason actor reason w found)
  served-Evolves (reschedule id date actor reason) = reschedule-Evolves given id date actor reason

  -- Whatever services of runs.go are called one after another (CreateRun, AttachPayment,
  -- DetachPayment, ApproveRun, HoldPayment, UnholdPayment, CancelPayment, RejectPayment and
  -- ReschedulePayment), however their statements fail and whatever they answer: no payment is added
  -- or lost, each keeps its amount and its idempotency key, and its status at the end is reached from
  -- its status at the start by transitions that the table allows and by steps to PREVALIDATED from
  -- RECEIVED, VALIDATED_LOCAL, UNDER_REVIEW, PREVALIDATED and ON_HOLD, which ReschedulePayment makes
  -- without the table.
  pub served_all-Evolves : (cs : List Command) (w : World) → Evolves w (served_all cs w)
  unfolding served_all
  served_all-Evolves [] w = evolution.refl_R w
  served_all-Evolves (c ∷ cs) w =
      evolution.trans_R w (served c w) (served_all cs (served c w)) (served-Evolves c w)
        (served_all-Evolves cs (served c w))
