-- ===== src/Queue/Submission.antt =====
-- SubmitPixWorker of internal/adapters/queue/jobs.go, and ReconcilePixWorker of reconcile.go.
use payments_hub.Base.{
  ℕ, Bool, true, false, ◌||◌, not, Option, none, some, List, [], ◌∷◌, ◌++◌, ◌==◌, length,
  if◌then◌else◌,
}
use payments_hub.Base.Bytes.{Bytes, codes}
use payments_hub.Base.Result.{Result, ok, err}
use payments_hub.Payment.{Payment, PaymentType, pix, field}
use payments_hub.Payment.Lifecycle.{Status, approved, submitting, sent, settled, is, transition}
use payments_hub.Store.{PaymentEvent, Db, pure, lift, try, new_uuid, clock, ◌>>=◌, ◌>>◌}
use payments_hub.Store.Payments.{get, update_status, list_by_status}
use payments_hub.Store.Events.{insert_event}
use payments_hub.Queue.{Gateway, SendPixRequest, PixResult}

-- `_ = w.events.Insert(…)`
unfoldable pub note : PaymentEvent → Db (Unit {0})
note e = try (insert_event e) (λ _. pure tt)

-- An event of the workers, without an id.
abbrev pub system_event : ℕ → Status → Status → Bytes → PaymentEvent
system_event id from to reason = record {
  id = 0;
  payment_id = id;
  from_status = some from;
  to_status = to;
  actor = codes "SYSTEM";
  reason = reason;
}

abbrev or_empty : Option Bytes → Bytes
or_empty none = []
or_empty (some s) = s

abbrev pub send_request : Payment → SendPixRequest
send_request p = record {
  idempotency_key = p.idempotency_key;
  amount = p.amount;
  description = p.description;
  payee_key_type = [];
  payee_key_value = or_empty (field (codes "key_value") p.payee);
}

-- The move from APPROVED to SUBMITTING.
unfoldable pub begin_submission : Payment → Db (Unit {0})
begin_submission p =
    if is p.status approved
    then (update_status p.id submitting [] [] >> note (system_event p.id approved submitting []))
    else pure tt

abbrev pub target_status : PixResult → Status
target_status r = if is r.status settled then settled else sent

-- What follows a good answer of the bank.
unfoldable pub end_submission : Payment → PixResult → Db (Unit {0})
end_submission p r = do
  update_status p.id (target_status r) r.bank_reference []
  note (system_event p.id submitting (target_status r) (codes "bank_ref=" ++ r.bank_reference))

module _ (gateway : Gateway) where
  -- `SubmitPixWorker.Work`
  unfoldable pub submit_pix : ℕ → Db (Unit {0})
  submit_pix id = do
    p ← get id
    begin_submission p
    now ← clock
    r ← lift (gateway.send_pix (send_request p) now)
    end_submission p r

  abbrev is_pix : PaymentType → Bool
  is_pix pix = true
  is_pix _ = false

  -- What the poll does with the bank's answer: every error ends the turn of the loop.
  unfoldable pub follow_answer : Payment → Result PixResult → Db (Unit {0})
  follow_answer p (err _) = pure tt
  follow_answer p (ok r) =
      if is r.status p.status
      then pure tt
      else try
          (lift (transition p.status r.status)
            >> update_status p.id r.status r.bank_reference r.reason
            >> new_uuid
            >>= λ id.
                note (record (system_event p.id p.status r.status (codes "reconciliation poll")) {
                  id = id;
                }))
          (λ _. pure tt)

  unfoldable pub reconcile_one : Payment → Db (Unit {0})
  reconcile_one p =
      if not (is_pix p.type) || length p.bank_reference == 0
      then pure tt
      else (clock >>= λ now. follow_answer p (gateway.get_pix_status p.bank_reference now))

  unfoldable pub reconcile_all : List Payment → Db (Unit {0})
  reconcile_all [] = pure tt
  reconcile_all (p ∷ ps) = reconcile_one p >> reconcile_all ps

  -- `ReconcilePixWorker.Work`
  unfoldable pub reconcile : Db (Unit {0})
  reconcile = list_by_status sent 500 0 >>= reconcile_all
