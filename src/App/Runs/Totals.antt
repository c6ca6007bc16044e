-- ===== src/App/Runs/Totals.antt =====
-- The counters of an approved run (runs.go, ApproveRun).
use payments_hub.Base.{ℕ, ◌+◌, ◌≡◌, refl, List, [], ◌∷◌, arith, length}
use payments_hub.Base.Bytes.{Bytes}
use payments_hub.Base.Result.{ok}
use payments_hub.Payment.{Payment}
use payments_hub.Run
use payments_hub.Store.{World, RunItem}
use payments_hub.Store.Answers.{
  Answers, Answers-bind, Answers-after, Answers-then, Answers-pure, Answers-weaken,
}
use payments_hub.App.Runs.{
  approve_item, approve_items, approve_run, close_approval, Tally, tally, empty_tally,
}

-- The payments that a tally has counted.
counted : Tally → ℕ
counted t = t.pix_count + t.ted_count

tally-counted : (p : Payment) (t : Tally) → counted (tally p t) ≡ counted t + 1
unfolding tally counted
tally-counted p t = ground arith

item_counts :
    (by : Bytes) (i : RunItem) (t : Tally)
    → Answers (λ t'. counted t' ≡ counted t + 1) (approve_item by i t)
unfolding approve_item
item_counts by i t =
    Answers-after _ _ _ (λ p.
      Answers-then _ _ _ (Answers-then _ _ _ (Answers-pure _ (tally p t) (tally-counted p t))))

items_count :
    (by : Bytes) (is : List RunItem) (t : Tally)
    → Answers (λ t'. counted t' ≡ counted t + length is) (approve_items by is t)
unfolding approve_items
items_count by [] t = Answers-pure _ t (omega arith)
items_count by (i ∷ is) t =
    Answers-bind _ (λ t'. counted t' ≡ counted t + 1) _ _ (item_counts by i t)
      (λ t' h.
        Answers-weaken (λ u. counted u ≡ counted t' + length is) _ _ (λ u e. omega arith)
          (items_count by is t'))

-- What an approved run says of itself.
abbrev pub Balanced : Run.Run → Type 0
Balanced r = (r.status ≡ Run.approved) × (r.pix_count + r.ted_count ≡ r.total_items)

close_approval-Balanced :
    (r : Run.Run) (by : Bytes) (items : ℕ) (t : Tally)
    → counted t ≡ items
    → Answers Balanced (close_approval r by items t)
unfolding close_approval counted
close_approval-Balanced r by items t h =
    Answers-after _ _ _
      (λ now. Answers-then _ _ _ (Answers-then _ _ _ (Answers-pure _ _ (refl, h))))

approve_run-Answers : (run_id : ℕ) (by : Bytes) → Answers Balanced (approve_run run_id by)
unfolding approve_run counted
approve_run-Answers run_id by = Answers-after _ _ _ (λ r. Answers-then _ _ _ (
    Answers-after _ _ _ (λ items.
      Answers-bind _ _ _ _ (items_count by items empty_tally)
        (λ t h. close_approval-Balanced r by (length items) t (omega arith)))))

-- Whenever `ApproveRun` answers with a run, this run is APPROVED, and its number of PIX payments
-- and its number of TED payments add up to its number of items, whatever else went wrong before.
pub approve_run_balanced :
    (run_id : ℕ) (by : Bytes) (w w' : World) (r : Run.Run)
    → approve_run run_id by w ≡ (ok r, w')
    → (r.status ≡ Run.approved) × (r.pix_count + r.ted_count ≡ r.total_items)
unfolding Answers
approve_run_balanced run_id by w w' r e = approve_run-Answers run_id by w w' r e
