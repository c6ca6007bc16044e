-- ===== src/Store/Tables.antt =====
-- What the services see of the database: the rows of each table, the calls that are still to
-- fail, the identifiers that `uuid.New` will give out, and the clock.
use payments_hub.Base.{ℕ, Option, List, []}
use payments_hub.Base.Bytes.{Bytes}
use payments_hub.Payment.{Payment}
use payments_hub.Payment.Lifecycle.{Status}
use payments_hub.Run.{Run, Channel}

-- How a call ends: well, without having reached the database, or without its answer coming back.
pub data Fault : Type 0 where
  none_at_all request_lost reply_lost : Fault

-- `ports.PaymentEvent`, without the payload and the correlation that no caller sets.
pub record PaymentEvent : Type 0 where
  pub id : ℕ
  pub payment_id : ℕ
  pub from_status : Option Status
  pub to_status : Status
  pub actor : Bytes
  pub reason : Bytes

-- `ports.IdempotencyRecord`. The snapshot holds the id and the status of the payment as texts.
pub record IdempotencyRecord : Type 0 where
  pub key : Bytes
  pub scope : Bytes
  pub request_hash : Bytes
  pub snapshot_id : ℕ
  pub snapshot_status : Status
  pub status_code : ℕ
  pub created_at : ℕ
  pub expires_at : ℕ

pub record RunItem : Type 0 where
  pub run_id : ℕ
  pub payment_id : ℕ
  pub channel : Channel

-- The columns rescheduled_from and rescheduled_reason of a payment, where they are not NULL.
pub record Postponement : Type 0 where
  pub payment_id : ℕ
  pub from : ℕ
  pub reason : Bytes

pub record World : Type 0 where
  pub payments : List Payment
  pub runs : List Run
  pub items : List RunItem
  pub events : List PaymentEvent
  pub idempotency : List IdempotencyRecord
  pub payer_accounts : List ℕ
  pub beneficiaries : List ℕ
  pub clients : List ℕ
  pub postponements : List Postponement
  pub faults : List Fault
  pub next_id : ℕ
  pub now : ℕ

-- The world from which on no statement fails.
abbrev pub calm : World → World
calm w = record w { faults = [] }
