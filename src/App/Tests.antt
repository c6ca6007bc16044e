-- ===== src/App/Tests.antt =====
-- The theorems on the services at a small database.
use payments_hub.Base.{true, ℕ, true, ◌+◌, ◌≤◌, ◌≡◌, refl, none, some, List, [], ◌∷◌, ◌++◌, arith}
use payments_hub.Base.Int.{pos, add64}
use payments_hub.Base.Bytes.{Bytes, codes}
use payments_hub.Base.Result.{ok, err, unique_violation}
use payments_hub.Payment.{Payment, pix, ted, pix_key, text, new}
use payments_hub.Payment.Lifecycle.{prevalidated, transition}
use payments_hub.Run
use payments_hub.Store.{
  calm, try, World, none_at_all, reply_lost, query, pure, raise_if, lift, new_uuid, clock, ◌>>=◌,
  ◌>>◌,
}
use payments_hub.Store.Evolve.{Evolves}
use payments_hub.Store.Payments.{get, update_row, update_status, find_payment, replace_payment}
use payments_hub.Store.Events.{insert_event, with_id, event_row}
use payments_hub.Store.Runs.{
  get_run, status_row, list_items, update_run_status, update_counters, find_run, replace_run,
  items_of,
}
use payments_hub.App.Receive.{
  ReceiveInput, execute, validate_input, get_account, check_account, replay_or_persist, persist_new,
  draft_payment, created,
}
use payments_hub.App.Receive.Refusals.{execute_orphaned}
use payments_hub.App.Receive.Replay.{execute_replays}
use payments_hub.Store.Idempotency.{get_record, find_record, insert_record, record_row}
use payments_hub.Store.Payments.{insert, insert_row, find_key}
use payments_hub.App.Receive.Outcomes.{AllNew, count_key, execute_adds_one}
use payments_hub.App.Runs.Reschedule.{
  Given, postpone, reschedule_payment, clean, reschedule_in, write_all, run_of,
}
use payments_hub.Store.Transaction.{transact, in_draft, regardless, and_then, draw, exec}
use payments_hub.Store.Runs.{find_run}
use payments_hub.Store.Payments.{replace_payment}
use payments_hub.App.Runs.Reschedule.Atomic.{AllOrNothing, reschedule_payment_atomic}
use payments_hub.App.Runs.{approve_run, approve_items, approve_item, move, tally, close_approval}
use payments_hub.App.Runs.Histories.{
  Command, reschedule, approve, cancel, served_all, served_all-Evolves,
}
use payments_hub.App.Runs.Totals.{approve_run_balanced}

abbrev order : Payment
order =
    new 7 (codes "EXT-1") pix (pos 1500) 1 pix_key ((codes "key_value", text (codes "a@b.c")) ∷ [])
      (codes "idem-1")

abbrev first_order : Payment
first_order = record order { status = prevalidated }

abbrev second_order : Payment
second_order = record order {
  id = 8;
  type = ted;
  amount = pos 2500;
  status = prevalidated;
  idempotency_key = codes "idem-2";
}

abbrev run : Run.Run
run = Run.new 3 20000

-- One open run with two payments; the third statement gets no answer.
abbrev world : World
world = record {
  payments = first_order ∷ second_order ∷ [];
  runs = run ∷ [];
  items =
      (record { run_id = 3; payment_id = 7; channel = Run.pix_rest })
      ∷ (record { run_id = 3; payment_id = 8; channel = Run.cnab_ted })
      ∷ [];
  events = [];
  idempotency = [];
  payer_accounts = 1 ∷ [];
  beneficiaries = [];
  clients = 3 ∷ [];
  postponements = [];
  faults = none_at_all ∷ none_at_all ∷ reply_lost ∷ [];
  next_id = 100;
  now = 1000;
}

abbrev request : ReceiveInput
request = record {
  idempotency_key = codes "idem-3";
  external_id = codes "EXT-3";
  type = pix;
  amount_cents = pos 990;
  payer_account_id = 1;
  beneficiary_id = none;
  payee_method = pix_key;
  payee = (codes "key_value", text (codes "a@b.c")) ∷ [];
  description = [];
  scheduled_for = none;
  client_id = none;
  actor = codes "api";
  request_hash = codes "h";
}

-- A text for a time.
abbrev stamp : ℕ → Bytes
stamp t = t ∷ []

no_such_key : count_key (codes "idem-3") world.payments ≤ 1
unfolding count_key new
no_such_key = omega arith

execute_adds_one_example :
    (added : List Payment) × ((execute stamp request world).1.payments ≡ world.payments ++ added)
    × AllNew (codes "idem-3") added
    × (count_key (codes "idem-3") (execute stamp request world).1.payments ≤ 1)
execute_adds_one_example = execute_adds_one stamp request world no_such_key

abbrev calm_world : World
calm_world = record world { faults = [] }

abbrev ingress : Payment
ingress =
    record (new 100 (codes "EXT-3") pix (pos 990) 1 pix_key
      ((codes "key_value", text (codes "a@b.c")) ∷ []) (codes "idem-3")) {
        beneficiary_snapshot = (codes "frozen_at", text (stamp 1000)) ∷ [];
        created_at = 1000;
        updated_at = 1000;
      }

answers :
    execute stamp request calm_world ≡ (ok (created ingress), (execute stamp request calm_world).1)
unfolding execute validate_input get_account check_account get_record find_record replay_or_persist
    persist_new draft_payment new insert insert_row find_payment find_key insert_event with_id
    event_row insert_record record_row query pure raise_if lift try new_uuid clock ◌>>=◌ ◌>>◌
answers = refl

execute_replays_example :
    (t : ℕ) × (execute stamp request (calm (execute stamp request calm_world).1) ≡ (
      ok (record { payment = ingress; replayed = true; cached_at = t }),
      calm (execute stamp request calm_world).1,
    ))
execute_replays_example =
    execute_replays stamp request calm_world (created ingress) (execute stamp request calm_world).1
      answers

request_valid : validate_input request ≡ ok tt
unfolding validate_input
request_valid = refl

-- The payment was stored, and then the service stopped.
abbrev orphaned_world : World
orphaned_world = record world { payments = ingress ∷ [] }

finds_none : find_record request.idempotency_key orphaned_world.idempotency ≡ none
unfolding find_record
finds_none = refl

finds_payment : find_key request.idempotency_key orphaned_world.payments ≡ some ingress
unfolding find_key new
finds_payment = refl

execute_orphaned_example :
    ((execute stamp request (calm orphaned_world)).0 ≡ err unique_violation)
    × ((execute stamp request (calm orphaned_world)).1.payments ≡ orphaned_world.payments)
execute_orphaned_example =
    execute_orphaned stamp request orphaned_world ingress request_valid refl finds_none
      finds_payment

abbrev given : Given
given = record { format_date = stamp; day_of = λ t. t; is_text = λ s. true }

abbrev calls : List Command
calls =
    reschedule 7 2000 (codes "ana") (codes "later")
    ∷ approve 3 (codes "ana")
    ∷ cancel 8 (codes "bob") []
    ∷ []

served_all-Evolves_example : Evolves calm_world (served_all given calls calm_world)
served_all-Evolves_example = served_all-Evolves given calls calm_world

abbrev balanced : Run.Run
balanced = record run {
  status = Run.approved;
  approved_at = some 1000;
  approved_by = codes "ana";
  total_items = 2;
  pix_count = 1;
  ted_count = 1;
  total_amount = pos 4000;
}

approves :
    approve_run 3 (codes "ana") calm_world
    ≡ (ok balanced, (approve_run 3 (codes "ana") calm_world).1)
unfolding approve_run approve_items approve_item move tally close_approval get_run list_items
    items_of update_run_status update_counters find_run replace_run get update_status find_payment
    replace_payment insert_event with_id event_row query pure raise_if lift new_uuid clock ◌>>=◌
    ◌>>◌ transition Run.transition Run.new new add64 update_row status_row
approves = refl

approve_run_balanced_example :
    (balanced.status ≡ Run.approved)
    × (balanced.pix_count + balanced.ted_count ≡ balanced.total_items)
approve_run_balanced_example =
    approve_run_balanced 3 (codes "ana") calm_world (approve_run 3 (codes "ana") calm_world).1
      balanced approves

rescheduled_well :
    (reschedule_payment given 7 2000 (codes "ana") (codes "later") calm_world).0 ≡ ok tt
unfolding reschedule_payment postpone clean transact in_draft reschedule_in write_all regardless
    and_then draw exec run_of find_run event_row get find_payment query pure raise_if ◌>>=◌ ◌>>◌ new
    Run.new replace_payment
rescheduled_well = refl

reschedule_payment_atomic_example :
    AllOrNothing given 7 2000
      (codes "ana")
      (codes "later")
      calm_world
      (reschedule_payment given 7 2000 (codes "ana") (codes "later") calm_world)
reschedule_payment_atomic_example =
    reschedule_payment_atomic given 7 2000 (codes "ana") (codes "later") calm_world
