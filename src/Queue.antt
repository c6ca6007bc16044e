-- ===== src/Queue.antt =====
-- internal/adapters/queue: the workers behind the job queue. A job that ends with an error is run
-- again by the queue. The gateway to the bank is given.
pub mod Submission
pub mod Prevalidation
pub mod Unguarded
pub mod Grouping
mod Tests
use payments_hub.Base.{ℕ, Option}
use payments_hub.Base.Int.{ℤ}
use payments_hub.Base.Bytes.{Bytes}
use payments_hub.Base.Result.{Result}
use payments_hub.Payment.Lifecycle.{Status}

-- `SendPixRequest`, of which the worker leaves the type of the key empty.
pub record SendPixRequest : Type 0 where
  pub idempotency_key : Bytes
  pub amount : ℤ
  pub description : Bytes
  pub payee_key_type : Bytes
  pub payee_key_value : Bytes

-- `SendPixResult` and `PixStatusResult`, without the bank's raw answer.
pub record PixResult : Type 0 where
  pub bank_reference : Bytes
  pub status : Status
  pub reason : Bytes

-- The calls of `PaymentGateway` that the workers make, each with the time at which it is made.
pub record Gateway : Type 0 where
  pub send_pix : SendPixRequest → ℕ → Result PixResult
  pub get_pix_status : Bytes → ℕ → Result PixResult
