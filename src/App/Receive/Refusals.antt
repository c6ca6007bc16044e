-- ===== src/App/Receive/Refusals.antt =====
-- How `Execute` refuses a request whose key is known (receive_payment.go).
use payments_hub.Base.{ℕ, suc, ◌≡◌, refl, true, none, some, arith}
use payments_hub.Base.Bytes.{Bytes}
use payments_hub.Base.Result.{ok, err, unique_violation}
use payments_hub.Payment.{Payment, new}
use payments_hub.Store.{calm, World, query, pure, lift, try, new_uuid, clock, ◌>>=◌, ◌>>◌}
use payments_hub.Store.Payments.{
  insert, insert_row, find_key, find_payment, contains_id, is_storable,
}
use payments_hub.Store.Idempotency.{get_record, find_record}
use payments_hub.App.Receive.{
  ReceiveInput, validate_input, get_account, check_account, draft_payment, persist_new,
  replay_or_persist, execute,
}

insert_taken :
    (p q : Payment) (w : World)
    → is_storable p ≡ true
    → find_key p.idempotency_key w.payments ≡ some q
    → insert_row p w ≡ (err unique_violation, w)
unfolding insert_row
insert_taken p q w storable found = elim (find_payment p.id w.payments) [
  | none ↦ ground arith
  | some r ↦ ground arith
]

module _ (rfc3339 : ℕ → Bytes) (i : ReceiveInput) where
  draft_storable :
      (id : ℕ) (at : Bytes) → validate_input i ≡ ok tt → is_storable (draft_payment i id at) ≡ true
  unfolding validate_input draft_payment new
  draft_storable id at valid = ground arith

  draft_taken :
      (id : ℕ) (at : Bytes) (p : Payment) (w : World)
      → validate_input i ≡ ok tt
      → find_key i.idempotency_key w.payments ≡ some p
      → insert_row (draft_payment i id at) w ≡ (err unique_violation, w)
  unfolding draft_payment new
  draft_taken id at p w valid found =
      insert_taken (draft_payment i id at) p w (draft_storable id at valid) found

  -- As long as no statement fails: when a payment with the key of a valid request of a known payer
  -- account is stored, but no idempotency record of the key, the request ends with a violation of
  -- the unique key, and never with the stored payment.
  pub execute_orphaned :
      (w : World) (p : Payment)
      → validate_input i ≡ ok tt
      → contains_id i.payer_account_id w.payer_accounts ≡ true
      → find_record i.idempotency_key w.idempotency ≡ none
      → find_key i.idempotency_key w.payments ≡ some p
      → ((execute rfc3339 i (calm w)).0 ≡ err unique_violation)
        × ((execute rfc3339 i (calm w)).1.payments ≡ w.payments)
  unfolding execute lift get_account check_account get_record replay_or_persist query try pure
      persist_new new_uuid clock insert ◌>>=◌ ◌>>◌
  execute_orphaned w p valid account missing found =
      let taken =
        draft_taken w.next_id (rfc3339 w.now) p (record (calm w) { next_id = suc w.next_id }) valid
          found in
      rw (valid, account, missing, taken) (refl, refl)
