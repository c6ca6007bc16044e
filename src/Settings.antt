-- ===== src/Settings.antt =====
-- internal/adapters/http/handlers/settings.go: the bank connections of a tenant, and the check of
-- their credentials.
pub mod Connections
pub mod Handlers
pub mod Isolation
pub mod Invariants
pub mod Outcomes
mod Tests
use payments_hub.Base.{ℕ, Option, List}
use payments_hub.Base.Bytes.{Bytes}
use payments_hub.Base.Result.{Error, Result}
use payments_hub.Store.{Fault}
use payments_hub.Banks.Validators.{BankCredentials}

pub data ConnectionStatus : Type 0 where
  draft validating active failed : ConnectionStatus

-- A row of bank_connections. A text that is NULL counts as an empty one, as it does in the code; the
-- times that no handler reads are left out.
pub record BankConnection : Type 0 where
  pub id : ℕ
  pub client_id : ℕ
  pub bank_code : Bytes
  pub bank_name : Bytes
  pub auth_method : Bytes
  pub credentials_enc : Bytes
  pub certificate_enc : Bytes
  pub private_key_enc : Bytes
  pub nonce : Bytes
  pub sftp_host : Bytes
  pub sftp_user : Bytes
  pub sftp_key_enc : Bytes
  pub sftp_remessa_dir : Bytes
  pub sftp_retorno_dir : Bytes
  pub status : ConnectionStatus
  pub validation_attempts : ℕ
  pub last_validation_error : Option Bytes
  pub last_validated_at : Option ℕ

-- The table, the calls that are still to fail, the identifiers and nonces drawn, and the clock.
pub record Desk : Type 0 where
  pub connections : List BankConnection
  pub faults : List Fault
  pub next_id : ℕ
  pub drawn : ℕ
  pub now : ℕ

-- `createBankConnectionReq`
pub record ConnectionReq : Type 0 where
  pub bank_code : Bytes
  pub bank_name : Bytes
  pub auth_method : Bytes
  pub credentials : Bytes
  pub cert_pem : Bytes
  pub key_pem : Bytes
  pub sftp_host : Bytes
  pub sftp_user : Bytes
  pub sftp_key_pem : Bytes
  pub sftp_remessa : Bytes
  pub sftp_retorno : Bytes

-- AES-GCM under the handler's key, the nonces that are drawn, the credentials that
-- `json.Unmarshal` finds in a text, the validator of a bank, and the text of the error with which it
-- refuses credentials.
pub record Vault : Type 0 where
  pub seal : Bytes → Bytes → Bytes
  pub open_sealed : Bytes → Bytes → Option Bytes
  pub nonce : ℕ → Bytes
  pub credentials_of : Bytes → BankCredentials
  pub validator_of : Bytes → Option (BankCredentials → Result (Unit {0}))
  pub error_text : Bytes → BankCredentials → Error → Bytes
