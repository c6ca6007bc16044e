-- ===== src/Queue/Grouping.antt =====
-- internal/adapters/queue/autorun.go: the periodic job that puts payments into a run.
pub mod Once
use payments_hub.Base.{ℕ, List, [], ◌∷◌}
use payments_hub.Payment.{Payment}
use payments_hub.Payment.Lifecycle.{prevalidated}
use payments_hub.Run
use payments_hub.Store.{World, Db, pure, try, new_uuid, clock, ◌>>=◌, ◌>>◌}
use payments_hub.Store.Payments.{list_by_status}
use payments_hub.Store.Runs.{insert_run, attach_payment}
use payments_hub.App.Runs.{channel_of}

-- The loop: a payment that cannot be attached is passed over.
unfoldable pub attach_all : ℕ → List Payment → Db (Unit {0})
attach_all run_id [] = pure tt
attach_all run_id (p ∷ ps) =
    try (attach_payment run_id p.id (channel_of p.type)) (λ _. attach_all run_id ps)

unfoldable pub group_payments : List Payment → Db (Unit {0})
group_payments [] = pure tt
group_payments (p ∷ ps) = do
  today ← clock
  id ← new_uuid
  insert_run (Run.new id today)
  attach_all id (p ∷ ps)

-- `AutoGroupRunWorker.Work`
unfoldable pub auto_group : Db (Unit {0})
auto_group = list_by_status prevalidated 1000 0 >>= group_payments
