-- ===== src/Settings/Tests.antt =====
-- The theorems on the handlers at two tenants with a connection each.
use payments_hub.Base.{ℕ, arith, ◌≡◌, refl, true, Option, none, some, List, [], ◌∷◌}
use payments_hub.Base.Bytes.{Bytes, codes}
use payments_hub.Base.Result.{Result}
use payments_hub.Banks.Validators.{BankCredentials, Checks, validate_santander}
use payments_hub.Settings.{BankConnection, Desk, ConnectionReq, Vault}
use payments_hub.Settings.Connections.{
  encrypt_fields, decrypt_credentials, read_row, write, set_status,
}
use payments_hub.Settings.Handlers.{
  new_row, validate, validate_row, check_row, check_with, conclude, Call, creates, updates, deletes,
  validates, serve,
}
use payments_hub.Settings.Invariants.{IsBounded, serve-IsBounded, rows_of, serve-others}
use payments_hub.Settings.Outcomes.{
  Approves, validate-success, credentials_in, decrypt_credentials-new_row,
}

abbrev plain_credentials : BankCredentials
plain_credentials = record {
  client_id = codes "id";
  client_secret = codes "key";
  api_key = [];
  cert_pem = [];
  key_pem = [];
  sftp_host = [];
  sftp_user = [];
  sftp_key_pem = [];
  sftp_remessa = [];
  sftp_retorno = [];
}

abbrev checks : Checks
checks = record { is_key_pair = λ cert key. true; status_of = λ r. none; basic_auth = λ id key. [] }

abbrev validator : Bytes → Option (BankCredentials → Result (Unit {0}))
validator code = some (validate_santander checks)

abbrev opened_text : Bytes → Option Bytes
opened_text [] = none
opened_text (_ ∷ s) = some s

-- A cipher that only marks the text.
abbrev vault : Vault
vault = record {
  seal = λ nonce s. 1 ∷ s;
  open_sealed = λ nonce s. opened_text s;
  nonce = λ n. n ∷ [];
  credentials_of = λ s. plain_credentials;
  validator_of = validator;
  error_text = λ code creds e. codes "refused";
}

abbrev request : ConnectionReq
request = record {
  bank_code = codes "033";
  bank_name = codes "Santander";
  auth_method = codes "API_KEY";
  credentials = codes "json";
  cert_pem = codes "cert";
  key_pem = codes "private";
  sftp_host = [];
  sftp_user = [];
  sftp_key_pem = [];
  sftp_remessa = [];
  sftp_retorno = [];
}

abbrev empty_desk : Desk
empty_desk = record { connections = []; faults = []; next_id = 5; drawn = 0; now = 100 }

abbrev row : BankConnection
row = new_row vault 1 request empty_desk

abbrev other_row : BankConnection
other_row = record row { id = 6; client_id = 2; validation_attempts = 3 }

abbrev desk : Desk
desk = record empty_desk { connections = row ∷ other_row ∷ []; next_id = 7 }

abbrev calls : List (ℕ × Call)
calls =
    (1, validates (some 5))
    ∷ (1, updates (some 6) (some request))
    ∷ (1, deletes (some 6))
    ∷ (1, creates (some request))
    ∷ []

desk-IsBounded : IsBounded desk.connections
unfolding new_row encrypt_fields
desk-IsBounded = (omega arith, (omega arith, tt))

serve-IsBounded_example : IsBounded (serve vault calls desk).connections
serve-IsBounded_example = serve-IsBounded vault calls desk desk-IsBounded

serve-others_example : rows_of 2 (serve vault calls desk).connections ≡ rows_of 2 desk.connections
serve-others_example = serve-others vault 2 calls desk (refl, (refl, (refl, (refl, tt))))

accepted : (validate vault 1 (some 5) desk).0.code ≡ 200
unfolding validate validate_row check_row check_with conclude read_row set_status write
    decrypt_credentials new_row encrypt_fields validate_santander
accepted = refl

validate-success_example :
    (b : BankConnection) × ((read_row 5 1 desk).0 ≡ some b) × Approves vault 1 b
validate-success_example = validate-success vault 1 5 desk accepted

opens : (nonce s : Bytes) → vault.open_sealed nonce (vault.seal nonce s) ≡ some s
opens nonce s = refl

tagged : (nonce s : Bytes) → (x : ℕ) × (xs : Bytes) × (vault.seal nonce s ≡ x ∷ xs)
tagged nonce s = (1, s, refl)

decrypt_credentials-new_row_example :
    decrypt_credentials vault (new_row vault 1 request empty_desk)
    ≡ some (credentials_in vault request)
decrypt_credentials-new_row_example =
    decrypt_credentials-new_row vault 1 opens tagged request empty_desk
