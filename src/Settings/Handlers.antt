-- ===== src/Settings/Handlers.antt =====
-- The handlers: each with the tenant of the request's context, the id of the URL, or `none` where
-- it is no UUID, and the request's body, or `none` where it does not decode.
use payments_hub.Base.{
  ◌++◌, ℕ, suc, ◌+◌, Bool, ◌||◌, ltb, Option, none, some, List, [], ◌∷◌, if◌then◌else◌,
}
use payments_hub.Base.Bytes.{Bytes, codes}
use payments_hub.Base.Result.{Error, Result, ok, err}
use payments_hub.Base.Utf8.{utf8}
use payments_hub.Banks.Validators.{BankCredentials, is_empty}
use payments_hub.Settings.{
  draft, validating, active, failed, BankConnection, Desk, ConnectionReq, Vault,
}
use payments_hub.Settings.Connections.{
  Reply, change, remove, write, insert_row, read_row, set_status, encrypt_fields,
  decrypt_credentials,
}

abbrev pub reply : ℕ → Bytes → Reply
reply code error = record { code = code; error = error }

abbrev pub max_validation_attempts : ℕ
max_validation_attempts = 3

abbrev blank_row : ℕ → ℕ → ConnectionReq → BankConnection
blank_row id tenant req = record {
  id = id;
  client_id = tenant;
  bank_code = req.bank_code;
  bank_name = req.bank_name;
  auth_method = req.auth_method;
  credentials_enc = [];
  certificate_enc = [];
  private_key_enc = [];
  nonce = [];
  sftp_host = [];
  sftp_user = [];
  sftp_key_enc = [];
  sftp_remessa_dir = [];
  sftp_retorno_dir = [];
  status = draft;
  validation_attempts = 0;
  last_validation_error = none;
  last_validated_at = none;
}

-- The error of a `write` ends the handler.
abbrev pub checked : Bool × Desk → Bytes → (Desk → Reply × Desk) → Reply × Desk
checked (wrote, d) error next = if wrote then next d else (reply 500 error, d)

module _ (vault : Vault) (tenant : ℕ) where
  -- The row that `CreateBankConnection` inserts.
  unfoldable pub new_row : ConnectionReq → Desk → BankConnection
  new_row req d = encrypt_fields vault (vault.nonce d.drawn) req (blank_row d.next_id tenant req)

  unfoldable pub create : Option ConnectionReq → Desk → Reply × Desk
  create none d = (reply 400 (codes "invalid_body"), d)
  create (some req) d =
      if is_empty req.bank_code || is_empty req.bank_name || is_empty req.auth_method
      then (reply 400 (codes "bank_code, bank_name, auth_method required"), d)
      else checked
          (write (insert_row (new_row req d))
            (record d { next_id = suc d.next_id; drawn = suc d.drawn }))
          (codes "create_failed") (λ d'. (reply 201 [], d'))

  unfoldable pub update : Option ℕ → Option ConnectionReq → Desk → Reply × Desk
  update none body d = (reply 400 (codes "invalid_id"), d)
  update (some id) none d = (reply 400 (codes "invalid_body"), d)
  update (some id) (some req) d =
      checked
        (write
          (λ rows. some (change id tenant (encrypt_fields vault (vault.nonce d.drawn) req) rows))
          (record d { drawn = suc d.drawn }))
        (codes "update_failed") (λ d'. (reply 200 [], (set_status id tenant draft 0 none d').1))

  unfoldable pub delete : Option ℕ → Desk → Reply × Desk
  delete none d = (reply 400 (codes "invalid_id"), d)
  delete (some id) d = (reply 204 [], (write (λ rows. some (remove id tenant rows)) d).1)

  -- The outcome of the health check, after the row was set to validating.
  unfoldable pub conclude : ℕ → ℕ → (Error → Bytes) → Result (Unit {0}) → Desk → Reply × Desk
  conclude id attempts text (err e) d = (
    reply 422 (codes "validation_failed"),
    (set_status id tenant failed attempts (some (text e)) d).1,
  )
  conclude id attempts text (ok _) d =
      (reply 200 [], (set_status id tenant active attempts none d).1)

  unfoldable pub check_with :
      ℕ
      → ℕ
      → Bytes
      → BankCredentials
      → Option (BankCredentials → Result (Unit {0}))
      → Desk
      → Reply × Desk
  check_with id attempts bank_code creds none d = (
    reply 422 (codes "unsupported_bank"),
    (set_status id tenant failed attempts
        (some (codes "Banco " ++ bank_code ++ utf8 " não suportado ainda")) d).1,
  )
  check_with id attempts bank_code creds (some validate) d =
      conclude id attempts (vault.error_text bank_code creds) (validate creds) d

  unfoldable pub check_row : ℕ → ℕ → Bytes → Option BankCredentials → Desk → Reply × Desk
  check_row id attempts bank_code none d = (
    reply 500 (codes "decrypt_failed"),
    (set_status id tenant failed attempts (some (codes "Erro interno ao decriptar credenciais"))
        d).1,
  )
  check_row id attempts bank_code (some creds) d =
      check_with id attempts bank_code creds (vault.validator_of bank_code) d

  unfoldable pub validate_row : ℕ → Option BankConnection → Desk → Reply × Desk
  validate_row id none d = (reply 404 (codes "not_found"), d)
  validate_row id (some b) d =
      if ltb max_validation_attempts (b.validation_attempts + 1)
      then (reply 422 (codes "max_attempts_reached"), d)
      else check_row id (b.validation_attempts + 1) b.bank_code (decrypt_credentials vault b)
          (set_status id tenant validating (b.validation_attempts + 1) none d).1

  -- `ValidateBankConnection`
  unfoldable pub validate : Option ℕ → Desk → Reply × Desk
  validate none d = (reply 400 (codes "invalid_id"), d)
  validate (some id) d = let (row, d') = read_row id tenant d in validate_row id row d'

-- A request of any tenant.
pub data Call : Type 0 where
  creates : Option ConnectionReq → Call
  updates : Option ℕ → Option ConnectionReq → Call
  deletes validates : Option ℕ → Call

abbrev pub step : Vault → ℕ → Call → Desk → Desk
step vault tenant (creates req) d = (create vault tenant req d).1
step vault tenant (updates id req) d = (update vault tenant id req d).1
step vault tenant (deletes id) d = (delete vault tenant id d).1
step vault tenant (validates id) d = (validate vault tenant id d).1

-- The requests that are served one after the other, each with its tenant.
unfoldable pub serve : Vault → List (ℕ × Call) → Desk → Desk
serve vault [] d = d
serve vault ((tenant, call) ∷ calls) d = serve vault calls (step vault tenant call d)
