-- ===== src/App/Receive.antt =====
-- internal/app/receive_payment.go: the ingress of a payment, with its idempotency.
pub mod Outcomes
pub mod Replay
pub mod Refusals
use payments_hub.Base.{
  ℕ, ◌+◌, Bool, true, false, ◌&&◌, ◌||◌, not, Option, none, List, [], ◌∷◌, ◌==◌, length,
  if◌then◌else◌,
}
use payments_hub.Base.Int.{ℤ, pos, leb_ℤ}
use payments_hub.Base.Bytes.{Bytes, codes, same}
use payments_hub.Base.Result.{
  Error, Result, ok, err, not_found, invalid_input, idempotency_mismatch, fail_if,
}
use payments_hub.Payment.{
  Payment, PaymentType, pix, ted, other_type, PayeeMethod, pix_key, bank_account, other_method,
  Fields, text, new,
}
use payments_hub.Payment.Lifecycle.{received}
use payments_hub.Store.{
  World, PaymentEvent, IdempotencyRecord, Db, pure, raise, lift, raise_if, query, try, new_uuid,
  clock, ◌>>=◌, ◌>>◌,
}
use payments_hub.Store.Payments.{insert, get_by_key, contains_id}
use payments_hub.Store.Events.{insert_event}
use payments_hub.Store.Idempotency.{insert_record, get_record}

pub record ReceiveInput : Type 0 where
  pub idempotency_key : Bytes
  pub external_id : Bytes
  pub type : PaymentType
  pub amount_cents : ℤ
  pub payer_account_id : ℕ
  pub beneficiary_id : Option ℕ
  pub payee_method : PayeeMethod
  pub payee : Fields
  pub description : Bytes
  pub scheduled_for : Option ℕ
  pub client_id : Option ℕ
  pub actor : Bytes
  pub request_hash : Bytes

-- `CacheHit` equals `Replayed` by its comment and in the code.
pub record ReceiveResult : Type 0 where
  pub payment : Payment
  pub replayed : Bool
  pub cached_at : ℕ

abbrev is_pix_or_ted : PaymentType → Bool
is_pix_or_ted (other_type _) = false
is_pix_or_ted _ = true

abbrev is_method : PayeeMethod → Bool
is_method (other_method _) = false
is_method _ = true

unfoldable pub validate_input : ReceiveInput → Result (Unit {0})
validate_input i =
    if length i.idempotency_key == 0
    then err invalid_input
    else if not (is_pix_or_ted i.type)
    then err invalid_input
    else if leb_ℤ i.amount_cents (pos 0)
    then err invalid_input
    else if i.payer_account_id == 0
    then err invalid_input
    else if not (is_method i.payee_method)
    then err invalid_input
    else if length i.payee == 0
    then err invalid_input
    else ok tt

-- `payerAccts.Get`, of which only the error is used.
unfoldable pub get_account : ℕ → Db (Unit {0})
get_account id = query (λ w. (if contains_id id w.payer_accounts then ok tt else err not_found, w))

-- A missing account is the caller's mistake.
unfoldable pub account_error : Error → Error
account_error not_found = invalid_input
account_error e = e

unfoldable pub check_account : Result (Unit {0}) → Db (Unit {0})
unfolding account_error
check_account (ok _) = pure tt
check_account (err e) = raise (account_error e)

-- The payment and the fields that `Execute` sets behind `payment.New`; `frozen_at` is the printed
-- time.
unfoldable pub draft_payment : ReceiveInput → ℕ → Bytes → Payment
draft_payment i id frozen_at =
    record (new id i.external_id i.type i.amount_cents i.payer_account_id i.payee_method i.payee
      i.idempotency_key) {
        beneficiary_id = i.beneficiary_id;
        beneficiary_snapshot = (codes "frozen_at", text frozen_at) ∷ [];
        description = i.description;
        scheduled_for = i.scheduled_for;
        client_id = i.client_id;
      }

-- 24 hours.
abbrev pub idem_ttl : ℕ
idem_ttl = 86400

abbrev pub ingress_event : ReceiveInput → ℕ → Payment → PaymentEvent
ingress_event i id p = record {
  id = id;
  payment_id = p.id;
  from_status = none;
  to_status = received;
  actor = i.actor;
  reason = codes "ingress";
}

abbrev pub snapshot : ReceiveInput → ℕ → Payment → IdempotencyRecord
snapshot i now p = record {
  key = i.idempotency_key;
  scope = codes "POST /v1/payments";
  request_hash = i.request_hash;
  snapshot_id = p.id;
  snapshot_status = p.status;
  status_code = 201;
  created_at = 0;
  expires_at = now + idem_ttl;
}

abbrev pub created : Payment → ReceiveResult
created p = record { payment = p; replayed = false; cached_at = 0 }

module _ (rfc3339 : ℕ → Bytes) (i : ReceiveInput) where
  -- The part of `Execute` that builds and stores a new payment.
  unfoldable pub persist_new : Db ReceiveResult
  unfolding draft_payment
  persist_new = do
    id ← new_uuid
    now ← clock
    p ← insert (draft_payment i id (rfc3339 now))
    event_id ← new_uuid
    insert_event (ingress_event i event_id p)
    now' ← clock
    insert_record (snapshot i now' p)
    pure (created p)

  -- The idempotency fast path. Whatever error the lookup ends with counts as a miss.
  unfoldable pub replay_or_persist : Result IdempotencyRecord → Db ReceiveResult
  replay_or_persist (err _) = persist_new
  replay_or_persist (ok existing) = do
    raise_if (not (same existing.request_hash i.request_hash)) idempotency_mismatch
    p ← get_by_key i.idempotency_key
    pure (record { payment = p; replayed = true; cached_at = existing.created_at })

  -- `Execute`
  unfoldable pub execute : Db ReceiveResult
  execute = do
    lift (validate_input i)
    try (get_account i.payer_account_id) check_account
    try (get_record i.idempotency_key) replay_or_persist
