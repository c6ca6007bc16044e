-- ===== src/App/Runs/Reschedule/Written.antt =====
-- What the transaction of ReschedulePayment (internal/app/runs.go) writes.
use payments_hub.Base.{
  ℕ, suc, true, ◌≡◌, inl, inr, refl, sym, ap, ◌∙◌, false, Option, List, [], ◌∷◌, ◌++◌,
  if◌then◌else◌, Bool-cases, arith,
}
use payments_hub.Base.Bytes.{Bytes}
use payments_hub.Base.Result.{conflict, Result, ok, err}
use payments_hub.Payment.{Payment}
use payments_hub.Run
use payments_hub.Store.{World, Fault, PaymentEvent}
use payments_hub.Store.Payments.{find_payment, is_some, replace_payment}
use payments_hub.Store.Events.{event_row}
use payments_hub.Store.Transaction.{
  Tx, SameRows, same_rows, give_up, exec, exec_step, exec_ok, on_success, and_then, regardless,
  draw,
}
use payments_hub.App.Runs.Reschedule.{
  Given, noted, without, run_of, blocks, read_run, drop_items, postpone, postponed, rescheduling,
  write_all, reschedule_in,
}

event_row_ok :
    (e : PaymentEvent) (v : World) (a : Unit {0}) (w : World)
    → event_row e v ≡ (ok a, w)
    → w ≡ record v { events = v.events ++ e ∷ [] }
unfolding event_row
event_row_ok e v a w h = ground (arith, h)

-- The update of a payment that is there.
postpone_ok :
    (given : Given) (p : Payment) (date : ℕ) (reason : Bytes) (v : World) (a : Unit {0}) (w : World)
    → is_some (find_payment p.id v.payments) ≡ true
    → postpone given p.id date reason v ≡ (ok a, w)
    → (w ≡ record v {
      payments = replace_payment p.id (postponed date v.now) v.payments;
      postponements = noted p.id (given.day_of v.now) reason v.postponements;
    })
      × (given.is_text reason ≡ true)
unfolding postpone
postpone_ok given p date reason v a w found h = elim (Bool-cases (given.is_text reason)) [
  | inl e ↦ (sym (ap (λ x. x.1) (rw (e, found) at h)), e)
  | inr e ↦ cc (rw e at h)
]

module _ (given : Given) (date : ℕ) (actor reason : Bytes) where
  -- The rows after the statements, for those before them.
  pub data Wrote (p : Payment) (v w : World) : Type 0 where
    wrote :
        w.payments ≡ replace_payment p.id (postponed date v.now) v.payments
        → w.items ≡ without p.id v.items
        → w.events ≡ v.events ++ rescheduling given v.next_id p date actor reason ∷ []
        → w.runs ≡ v.runs
        → w.postponements ≡ noted p.id (given.day_of v.now) reason v.postponements
        → given.is_text reason ≡ true
        → Wrote p v w

  glue :
      (p : Payment) (f1 f2 f3 : List Fault) (v d d' w : World)
      → d ≡ record v { items = without p.id v.items; faults = f1 }
      → d' ≡ record d {
        payments = replace_payment p.id (postponed date d.now) d.payments;
        postponements = noted p.id (given.day_of d.now) reason d.postponements;
        faults = f2;
      }
      → w ≡ record d' {
        events = d'.events ++ rescheduling given d'.next_id p date actor reason ∷ [];
        next_id = suc d'.next_id;
        faults = f3;
      }
      → given.is_text reason ≡ true
      → Wrote p v w
  glue p f1 f2 f3 v d d' w h k l m = rw (l, k, h) (wrote refl refl refl refl refl m)

  write_all_ok :
      (p : Payment) (t t' : Tx) (a : Unit {0})
      → (t.is_aborted ≡ false → is_some (find_payment p.id t.draft.payments) ≡ true)
      → write_all given p date actor reason t ≡ (ok a, t')
      → (t.is_aborted ≡ false) × Wrote p t.draft t'.draft
  unfolding write_all regardless and_then draw
  write_all_ok p t t' a found h =
      after_drop (exec (drop_items p.id) t).0 (exec (drop_items p.id) t).1 refl h
    where
      after_postpone :
          (r : Result (Unit {0})) (t1 t2 : Tx)
          → exec (drop_items p.id) t ≡ (r, t1)
          → (q : Result (Unit {0})) → exec (postpone given p.id date reason) t1 ≡ (q, t2)
          → on_success q
              (λ _. draw λ id. exec (event_row (rescheduling given id p date actor reason)))
              t2
            ≡ (ok a, t')
          → (t.is_aborted ≡ false) × Wrote p t.draft t'.draft
      after_postpone r t1 t2 d (err x) e k = cc
      after_postpone r t1 t2 d (ok u) e k =
          let n = exec_ok _ _ t' a k in
          let (n2, _, f3, _, g3) = exec_step _ _ t' _ k n in
          let (n1, _, f2, _, g2) = exec_step _ t1 t2 _ e n2 in
          let (n0, _, f1, _, g1) = exec_step _ t t1 _ d n1 in
          let updated =
            postpone_ok given p date reason (record t1.draft { faults = f2 }) _ t2.draft
              (ap (λ x. is_some (find_payment p.id x.1.payments)) (sym g1) ∙ found n0) g2 in
          (
            n0,
            glue p f1 f2 f3 t.draft t1.draft t2.draft t'.draft (sym (ap (λ x. x.1) g1)) updated.0
                (event_row_ok _ _ _ _ g3) updated.1,
          )

      after_drop :
          (r : Result (Unit {0})) (t1 : Tx)
          → exec (drop_items p.id) t ≡ (r, t1)
          → and_then
              (exec (postpone given p.id date reason))
              (λ _. draw λ id. exec (event_row (rescheduling given id p date actor reason)))
              t1
            ≡ (ok a, t')
          → (t.is_aborted ≡ false) × Wrote p t.draft t'.draft
      after_drop r t1 d k =
          after_postpone r t1 (exec (postpone given p.id date reason) t1).1 d
            (exec (postpone given p.id date reason) t1).0 refl k

  pub Wrote-faults :
      (p : Payment) (fs : List Fault) (v d w : World)
      → d ≡ record v { faults = fs }
      → Wrote p d w
      → Wrote p v w
  Wrote-faults p fs v d w h (wrote a b c e f g) =
      wrote (a ∙ ap (λ x. replace_payment p.id (postponed date x.now) x.payments) h)
        (b ∙ ap (λ x. without p.id x.items) h)
        (c ∙ ap (λ x. x.events ++ rescheduling given x.next_id p date actor reason ∷ []) h)
        (e ∙ ap (λ x. x.runs) h)
        (f ∙ ap (λ x. noted p.id (given.day_of x.now) reason x.postponements) h) g

  pub reschedule_in_ok :
      (p : Payment) (t t' : Tx) (a : Unit {0})
      → is_some (find_payment p.id t.draft.payments) ≡ true
      → reschedule_in given p date actor reason t ≡ (ok a, t')
      → (blocks (ok (run_of p.id t.draft.items t.draft.runs)) ≡ false) × Wrote p t.draft t'.draft
  unfolding reschedule_in regardless
  reschedule_in_ok p t t' a found h =
      after_read (exec (read_run p.id) t).0 (exec (read_run p.id) t).1 refl h
    where
      unblocked :
          (r : Result (Option Run.Status)) (t1 : Tx)
          → exec (read_run p.id) t ≡ (r, t1)
          → blocks r ≡ false
          → write_all given p date actor reason t1 ≡ (ok a, t')
          → (blocks (ok (run_of p.id t.draft.items t.draft.runs)) ≡ false)
            × Wrote p t.draft t'.draft
      unblocked r t1 d b k =
          let (n1, w1) =
            write_all_ok p t1 t' a
              (λ n.
                let (_, _, _, _, g) = exec_step _ t t1 r d n in
                ap (λ x. is_some (find_payment p.id x.1.payments)) (sym g) ∙ found)
              k in
          let (n0, s, f1, q, g1) = exec_step _ t t1 r d n1 in
          (
            ap (λ x. blocks x.0) g1 ∙ ap blocks (sym q) ∙ b,
            Wrote-faults p f1 t.draft t1.draft t'.draft (sym (ap (λ x. x.1) g1)) w1,
          )

      after_read :
          (r : Result (Option Run.Status)) (t1 : Tx)
          → exec (read_run p.id) t ≡ (r, t1)
          → (if blocks r then give_up conflict else write_all given p date actor reason) t1
            ≡ (ok a, t')
          → (blocks (ok (run_of p.id t.draft.items t.draft.runs)) ≡ false)
            × Wrote p t.draft t'.draft
      after_read r t1 d k = elim (Bool-cases (blocks r)) [
        | inl e ↦ cc (rw e at k)
        | inr e ↦ unblocked r t1 d e (rw e at k)
      ]

  pub same-Wrote : (p : Payment) (v d w : World) → SameRows d w → Wrote p v d → Wrote p v w
  same-Wrote p v d w (same_rows a b c e f) (wrote a' b' c' e' f' g) =
      wrote (a ∙ a') (b ∙ b') (c ∙ c') (e ∙ e') (f ∙ f') g
