-- ===== src/App/Runs/Legal.antt =====
-- The services on runs move payments along the table of transitions only (runs.go).
use payments_hub.Base.{ℕ, ◌==◌, ap, ◌∙◌, ◌≡◌, true, not, Option, none, some, List, [], ◌∷◌, arith}
use payments_hub.Base.Bytes.{Bytes}
use payments_hub.Base.Result.{ok, conflict}
use payments_hub.Payment.{Payment}
use payments_hub.Payment.Lifecycle.{Status, prevalidated, approved, is, can_transition, transition}
use payments_hub.Store.{World, PaymentEvent, RunItem, Db, query, ◌>>=◌}
use payments_hub.Store.Always.{
  Always, Always-bind, Always-pure, Always-query, Always-new_uuid, Always-if, At-query, At-lift,
  At-raise_if, At-then, Always-found,
}
use payments_hub.Store.Evolve.{
  Evolves, evolution, Evolves-same, update_row-Evolves, find_payment-id,
}
use payments_hub.Store.Payments.{get, update_status, update_row, find_payment, or_missing}
use payments_hub.Store.Events.{insert_event, with_id, event_row, event_row_lem}
use payments_hub.App.Runs.{
  move, moved, approve_item, approve_items, transition_payment, Tally, tally,
}

pub Quiet-Evolves :
    {A : Type 0} (m : Db A) → ((w : World) → (m w).1.payments ≡ w.payments) → Always Evolves m
unfolding Always
Quiet-Evolves m h w = Evolves-same w (m w).1 (h w)

event-Evolves : (e : PaymentEvent) → Always Evolves (query (event_row e))
event-Evolves e =
    Always-query evolution (event_row e) (Quiet-Evolves (event_row e) (event_row_lem e))

pub insert_event-Evolves : (e : PaymentEvent) → Always Evolves (insert_event e)
unfolding insert_event with_id
insert_event-Evolves e =
    Always-bind evolution _ _
      (Always-if evolution (e.id == 0) _ _
        (Always-bind evolution _ _ (Always-new_uuid evolution) (λ id. Always-pure evolution _))
        (Always-pure evolution e))
      event-Evolves

legal_of_ok : (s t : Status) → transition s t ≡ ok tt → can_transition s t ≡ true
unfolding transition
legal_of_ok s t h = ground arith

some_of_ok : (q : Option Payment) (p : Payment) → or_missing q ≡ ok p → q ≡ some p
some_of_ok none p h = cc
some_of_ok (some q) p h = cc

-- The row that is written is the one that was read.
pub update_status-Evolves :
    (p : Payment) (to : Status) (bank_ref reject_reason : Bytes) (w : World)
    → find_payment p.id w.payments ≡ some p
    → can_transition p.status to ≡ true
    → Evolves w (update_status p.id to bank_ref reject_reason w).1
unfolding update_status
update_status-Evolves p to b r w found legal =
    At-query evolution (update_row p.id to b r) w
      (λ gs. update_row-Evolves p to b r (record w { faults = gs }) found legal)

pub move-Evolves :
    (p : Payment) (to : Status) (reject_reason actor reason : Bytes) (w : World)
    → find_payment p.id w.payments ≡ some p
    → Evolves w (move p to reject_reason actor reason w).1
unfolding move
move-Evolves p to rej actor reason w found = At-lift evolution (transition p.status to) _ w (λ h.
    At-then evolution (update_status p.id to [] rej) _ w
      (update_status-Evolves p to [] rej w found (legal_of_ok p.status to h))
      (Always-bind evolution _ _ (Always-new_uuid evolution)
        (λ id. insert_event-Evolves (moved id p to actor reason))))

-- A block behind `Get` knows the payment that is stored.
pub got-Evolves :
    {B : Type 0} (id : ℕ) (f : Payment → Db B)
    → ((w : World) (p : Payment) → find_payment p.id w.payments ≡ some p → Evolves w (f p w).1)
    → Always Evolves (get id >>= f)
unfolding get
got-Evolves id f h =
    Always-found evolution (λ w. or_missing (find_payment id w.payments)) f
      (λ w p e.
        let found = some_of_ok (find_payment id w.payments) p e in
        h w p (ap (λ j. find_payment j w.payments) (find_payment-id id w.payments p found) ∙ found))

pub transition_payment-Evolves :
    (id : ℕ) (to : Status) (actor reason : Bytes) (require_from : Status)
    → Always Evolves (transition_payment id to actor reason require_from)
unfolding transition_payment
transition_payment-Evolves id to actor reason from = got-Evolves id _ (λ w p found.
    At-raise_if evolution (not (is p.status from)) conflict _ w
      (λ _. move-Evolves p to [] actor reason w found))

item-Evolves :
    (approved_by : Bytes) (i : RunItem) (t : Tally) → Always Evolves (approve_item approved_by i t)
unfolding approve_item
item-Evolves by i t = got-Evolves i.payment_id _ (λ w p found.
    At-raise_if evolution (not (is p.status prevalidated)) conflict _ w (λ _.
      At-then evolution (move p approved [] by _) _ w (move-Evolves p approved [] by _ w found)
        (Always-pure evolution (tally p t))))

pub items-Evolves :
    (approved_by : Bytes) (is : List RunItem) (t : Tally)
    → Always Evolves (approve_items approved_by is t)
unfolding approve_items
items-Evolves by [] t = Always-pure evolution t
items-Evolves by (i ∷ is) t = Always-bind evolution _ _ (item-Evolves by i t) (items-Evolves by is)
