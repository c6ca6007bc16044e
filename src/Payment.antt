-- ===== src/Payment.antt =====
-- internal/domain/payment/payment.go: a payment order. Identifiers are numbers, 0 for `uuid.Nil`;
-- a time is the number of seconds since the epoch in the zone of the service.
pub mod Lifecycle
pub mod Histories
pub mod Rules
mod Tests
use payments_hub.Base.{ℕ, Option, none, some, List, [], ◌∷◌, if◌then◌else◌}
use payments_hub.Base.Int.{ℤ}
use payments_hub.Base.Bytes.{Bytes, codes, same}
use payments_hub.Base.Result.{Result, ok, err, ◌>>=◌, ◌>>◌}
use payments_hub.Payment.Lifecycle.{Status, received, transition}

-- `Type`; `other_type` is a text that is neither constant.
pub data PaymentType : Type 0 where
  pix ted : PaymentType
  other_type : Bytes → PaymentType

pub data PayeeMethod : Type 0 where
  pix_key bank_account : PayeeMethod
  other_method : Bytes → PayeeMethod

-- A value of a `map[string]any` that came from JSON: a text, or what is no text.
pub data Value : Type 0 where
  text : Bytes → Value
  not_text : Value

abbrev pub Fields : Type 0
Fields = List (Bytes × Value)

abbrev as_text : Value → Option Bytes
as_text (text s) = some s
as_text not_text = none

-- `s, ok := m[key].(string)`
unfoldable pub field : Bytes → Fields → Option Bytes
field k [] = none
field k ((j, v) ∷ m) = if same j k then as_text v else field k m

pub record Payment : Type 0 where
  pub id : ℕ
  pub external_id : Bytes
  pub type : PaymentType
  pub status : Status
  pub amount : ℤ
  pub currency : Bytes
  pub payer_account_id : ℕ
  pub beneficiary_id : Option ℕ
  pub beneficiary_snapshot : Fields
  pub payee_method : PayeeMethod
  pub payee : Fields
  pub description : Bytes
  pub scheduled_for : Option ℕ
  pub idempotency_key : Bytes
  pub bank_reference : Bytes
  pub rejection_reason : Bytes
  pub client_id : Option ℕ
  pub created_at : ℕ
  pub updated_at : ℕ

unfoldable pub new : ℕ → Bytes → PaymentType → ℤ → ℕ → PayeeMethod → Fields → Bytes → Payment
new id external_id type amount payer_account_id payee_method payee idempotency_key = record {
  id = id;
  external_id = external_id;
  type = type;
  status = received;
  amount = amount;
  currency = codes "BRL";
  payer_account_id = payer_account_id;
  beneficiary_id = none;
  beneficiary_snapshot = [];
  payee_method = payee_method;
  payee = payee;
  description = [];
  scheduled_for = none;
  idempotency_key = idempotency_key;
  bank_reference = [];
  rejection_reason = [];
  client_id = none;
  created_at = 0;
  updated_at = 0;
}

-- `ApplyTransition`: the payment afterwards, or the error, with the payment as it was.
unfoldable pub apply_transition : Payment → Status → Result Payment
unfolding transition
apply_transition p to = do transition p.status to; ok (record p { status = to })
