-- ===== src/Queue/Unguarded.antt =====
-- What SubmitPixWorker does with a payment that is not APPROVED (jobs.go).
use payments_hub.Base.{ℕ, suc, ◌≡◌, false, some, [], ◌++◌}
use payments_hub.Base.Bytes.{Bytes, codes}
use payments_hub.Base.Result.{ok}
use payments_hub.Payment.{Payment}
use payments_hub.Payment.Lifecycle.{Status, approved, submitting, is}
use payments_hub.Store.{calm, World, query, pure, lift, try, new_uuid, clock, ◌>>=◌, ◌>>◌}
use payments_hub.Store.Payments.{
  find_payment, replace_payment, restate, get, update_status, update_row,
}
use payments_hub.Store.Events.{insert_event, with_id, event_row_lem}
use payments_hub.Queue.{Gateway, PixResult}
use payments_hub.Queue.Submission.{
  note, begin_submission, end_submission, send_request, target_status, submit_pix, system_event,
}

-- A note of the workers has no id yet, and touches no payment.
pub note-payments :
    (id : ℕ) (from to : Status) (reason : Bytes) (w : World)
    → (note (system_event id from to reason) (calm w)).1.payments ≡ w.payments
unfolding note try insert_event with_id ◌>>=◌ new_uuid pure query
note-payments id from to reason w =
    event_row_lem (record (system_event id from to reason) { id = w.next_id })
      (record (calm w) { next_id = suc w.next_id })

end_submission-payments :
    (p : Payment) (r : PixResult) (w : World)
    → find_payment p.id w.payments ≡ some p
    → (end_submission p r (calm w)).1.payments
      ≡ replace_payment p.id (restate (target_status r) r.bank_reference [] w.now) w.payments
unfolding end_submission update_status update_row query ◌>>◌ ◌>>=◌
end_submission-payments p r w found = rw found (
    note-payments p.id submitting (target_status r) (codes "bank_ref=" ++ r.bank_reference)
      (record w {
        payments =
            replace_payment p.id (restate (target_status r) r.bank_reference [] w.now) w.payments;
      }))

-- As long as no statement fails: where the bank answers the request for a transfer well, a stored
-- payment in any status other than APPROVED, be it CANCELED or SETTLED, becomes SENT, or SETTLED
-- when the bank says so, with the bank's reference, and no other payment changes.
pub submits_unapproved :
    (gateway : Gateway) (p : Payment) (r : PixResult) (w : World)
    → find_payment p.id w.payments ≡ some p
    → is p.status approved ≡ false
    → gateway.send_pix (send_request p) w.now ≡ ok r
    → (submit_pix gateway p.id (calm w)).1.payments
      ≡ replace_payment p.id (restate (target_status r) r.bank_reference [] w.now) w.payments
unfolding submit_pix get query begin_submission ◌>>◌ ◌>>=◌ clock lift pure
submits_unapproved gateway p r w found not_approved answer =
    rw (found, not_approved, answer) (end_submission-payments p r w found)
