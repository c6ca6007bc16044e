-- ===== src/App/Runs/Reschedule/Atomic.antt =====
-- ReschedulePayment of internal/app/runs.go does all or nothing.
use payments_hub.Base.{
  ℕ, ◌≡◌, ◌⊎◌, inl, inr, refl, sym, ap, ◌∙◌, Bool, true, false, not, Option, none, some, List,
  if◌then◌else◌,
}
use payments_hub.Base.Bytes.{Bytes}
use payments_hub.Base.Result.{conflict, Result, ok, err}
use payments_hub.Payment.{Payment}
use payments_hub.Store.{World, Fault, pure, query, continue, raise_if, ◌>>=◌, ◌>>◌}
use payments_hub.Store.Success.{read_world, look_ok}
use payments_hub.Store.Payments.{get, or_missing, find_payment, is_some}
use payments_hub.Store.Evolve.{find_payment-id}
use payments_hub.Store.Transaction.{
  Part, SameRows, same_rows, is_good, opened, in_draft, in_draft-cases, transact,
}
use payments_hub.App.Runs.Reschedule.{
  Given, run_of, blocks, reschedule_in, reschedule_payment, may_reschedule, clean,
}
use payments_hub.App.Runs.Reschedule.Written.{Wrote, Wrote-faults, same-Wrote, reschedule_in_ok}

-- The payment was stored in a status that allows it, no fixed run held it, and all rows are written.
pub data Rescheduled (given : Given) (id date : ℕ) (actor reason : Bytes) (v w : World)
    : Type 0 where
  rescheduled :
      (p : Payment)
      → find_payment id v.payments ≡ some p
      → may_reschedule p.status ≡ true
      → blocks (ok (run_of p.id v.items v.runs)) ≡ false
      → Wrote given date actor (clean reason) p v w
      → Rescheduled given id date actor reason v w

some_of_ok : (o : Option Payment) (p : Payment) → or_missing o ≡ ok p → o ≡ some p
some_of_ok none p h = cc
some_of_ok (some q) p h = cc

module _ (given : Given) (id date : ℕ) (actor reason : Bytes) where
  -- All or nothing; nothing only with an error.
  abbrev pub AllOrNothing : World → Result (Unit {0}) × World → Type 0
  AllOrNothing v q =
      (SameRows v q.1 × (is_good q.0 ≡ false)) ⊎ Rescheduled given id date actor reason v q.1

  AllOrNothing-faults :
      (fs : List Fault) (v d : World) (q : Result (Unit {0}) × World)
      → d ≡ record v { faults = fs }
      → AllOrNothing d q
      → AllOrNothing v q
  AllOrNothing-faults fs v d q h (inl (same_rows a b c e f, k)) = inl (
    same_rows (a ∙ ap (λ x. x.payments) h) (b ∙ ap (λ x. x.items) h) (c ∙ ap (λ x. x.events) h)
        (e ∙ ap (λ x. x.runs) h) (f ∙ ap (λ x. x.postponements) h),
    k,
  )
  AllOrNothing-faults fs v d q h (inr (rescheduled p found may free k)) = inr (
      rescheduled p (ap (λ x. find_payment id x.payments) (sym h) ∙ found) may
        (ap (λ x. blocks (ok (run_of p.id x.items x.runs))) (sym h) ∙ free)
        (Wrote-faults given date actor (clean reason) p fs v d q.1 h k))

  in_draft_all :
      (p : Payment) (v : World)
      → find_payment id v.payments ≡ some p
      → may_reschedule p.status ≡ true
      → AllOrNothing v (in_draft (reschedule_in given p date actor (clean reason)) v)
  in_draft_all p v found may = elim (in_draft-cases body v) [
    | inl k ↦ inl k
    | inr (e, k) ↦
        let (free, all) =
          reschedule_in_ok given date actor (clean reason) p (opened v) (body (opened v)).1 tt
            (ap (λ j. is_some (find_payment j v.payments)) (find_payment-id id v.payments p found)
              ∙ ap is_some found)
            (ap (λ r. (r, (body (opened v)).1)) e) in
        inr
          (rescheduled p found may free (same-Wrote given date actor (clean reason) p v _ _ k all))
  ]
    where
      body : Part (Unit {0})
      body = reschedule_in given p date actor (clean reason)

  transact_all :
      (p : Payment) (v : World)
      → find_payment id v.payments ≡ some p
      → may_reschedule p.status ≡ true
      → AllOrNothing v (transact (reschedule_in given p date actor (clean reason)) v)
  unfolding transact ◌>>◌ ◌>>=◌ pure
  transact_all p v found may =
      let (fs, e) = read_world (λ _. ok tt) v in
      begun fs (query (pure tt) v).0 (query (pure tt) v).1 e
    where
      begun :
          (fs : List Fault) (r : Result (Unit {0})) (d : World)
          → d ≡ record v { faults = fs }
          → AllOrNothing v
              (continue r (λ _. in_draft (reschedule_in given p date actor (clean reason))) d)
      begun fs (err x) d e =
          AllOrNothing-faults fs v d (err x, d) e (inl (same_rows refl refl refl refl refl, refl))
      begun fs (ok _) d e =
          AllOrNothing-faults fs v d (in_draft (reschedule_in given p date actor (clean reason)) d)
            e (in_draft_all p d (ap (λ x. find_payment id x.payments) e ∙ found) may)

  -- Under any failures of the database ReschedulePayment does all or nothing. Either payments with
  -- their columns on postponement, items, events and runs are as they were, and the answer is an
  -- error; or the payment was stored in one of the five statuses, in no run that is APPROVED,
  -- EXECUTING or PARTIALLY_SETTLED, the reason that is left of the one given is a text that the
  -- database admits, and the payment is PREVALIDATED with the new date and this reason, out of its
  -- run, with one event more, while the other payments, items and runs stay as they were.
  pub reschedule_payment_atomic :
      (w : World) → AllOrNothing w (reschedule_payment given id date actor reason w)
  unfolding reschedule_payment get ◌>>◌ ◌>>=◌ raise_if
  reschedule_payment_atomic w =
      let (fs, e) = read_world (λ v. or_missing (find_payment id v.payments)) w in
      found (query (λ v. (or_missing (find_payment id v.payments), v)) w).0 _ refl fs e
    where
      allowed :
          (p : Payment) (b : Bool) (fs : List Fault) (v : World)
          → may_reschedule p.status ≡ b
          → find_payment id v.payments ≡ some p
          → AllOrNothing v (
              continue
                (if not b then err conflict else ok tt)
                (λ _. transact (reschedule_in given p date actor (clean reason)))
                v)
      allowed p true fs v e f = transact_all p v f e
      allowed p false fs v e f = inl (same_rows refl refl refl refl refl, refl)

      found :
          (r : Result Payment) (v : World)
          → query (λ x. (or_missing (find_payment id x.payments), x)) w ≡ (r, v)
          → (fs : List Fault) → v ≡ record w { faults = fs }
          → AllOrNothing w (
              continue r
                (λ p.
                  raise_if (not (may_reschedule p.status)) conflict
                  >> transact (reschedule_in given p date actor (clean reason)))
                v)
      found (err x) v d fs e =
          AllOrNothing-faults fs w v (err x, v) e (inl (same_rows refl refl refl refl refl, refl))
      found (ok p) v d fs e =
          let (gs, f, g) = look_ok (λ x. or_missing (find_payment id x.payments)) w p v d in
          AllOrNothing-faults fs w v _ e (
            allowed p (may_reschedule p.status) fs v refl
              (ap (λ x. find_payment id x.payments) e ∙ some_of_ok _ p f))
