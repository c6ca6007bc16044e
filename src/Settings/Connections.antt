-- ===== src/Settings/Connections.antt =====
-- The statements on the bank connections and the sealing of their credentials. A reply is the HTTP
-- status with the `error` of the body, or an empty text; the rest of the body is left out.
use payments_hub.Base.{
  ℕ, Bool, true, false, not, ◌&&◌, ◌||◌, ◌==◌, leb, Option, none, some, List, [], ◌∷◌, ◌++◌, length,
  if◌then◌else◌,
}
use payments_hub.Base.Bytes.{Bytes, codes, same}
use payments_hub.Store.{Fault, none_at_all, request_lost, reply_lost}
use payments_hub.Banks.Validators.{BankCredentials}
use payments_hub.Settings.{ConnectionStatus, active, BankConnection, Desk, ConnectionReq, Vault}

pub record Reply : Type 0 where
  pub code : ℕ
  pub error : Bytes

-- `WHERE id = $1 AND client_id = $2`
abbrev pub is_row : ℕ → ℕ → BankConnection → Bool
is_row id tenant b = b.id == id && b.client_id == tenant

abbrev pub find : ℕ → ℕ → List BankConnection → Option BankConnection
find id tenant [] = none
find id tenant (b ∷ bs) = if is_row id tenant b then some b else find id tenant bs

abbrev pub change :
    ℕ → ℕ → (BankConnection → BankConnection) → List BankConnection → List BankConnection
change id tenant f [] = []
change id tenant f (b ∷ bs) = (if is_row id tenant b then f b else b) ∷ change id tenant f bs

abbrev pub remove : ℕ → ℕ → List BankConnection → List BankConnection
remove id tenant [] = []
remove id tenant (b ∷ bs) =
    let rest = remove id tenant bs in if is_row id tenant b then rest else b ∷ rest

-- The table after a statement; `none` where a constraint refuses it.
abbrev pub Statement : Type 0
Statement = List BankConnection → Option (List BankConnection)

abbrev pub outcome : Option (List BankConnection) → Desk → Bool × Desk
outcome none d = (false, d)
outcome (some rows) d = (true, record d { connections = rows })

-- One statement that writes, run as the next fault says: whether it was answered well, and the
-- table.
abbrev pub faulty : Fault → Statement → Desk → Bool × Desk
faulty none_at_all f d = outcome (f d.connections) d
faulty request_lost f d = (false, d)
faulty reply_lost f d = (false, (outcome (f d.connections) d).1)

abbrev pub scheduled : List Fault → Statement → Desk → Bool × Desk
scheduled [] f d = outcome (f d.connections) d
scheduled (fault ∷ rest) f d = faulty fault f (record d { faults = rest })

unfoldable pub write : Statement → Desk → Bool × Desk
write f d = scheduled d.faults f d

-- UNIQUE(client_id, bank_code), and the checks of the columns.
abbrev taken : BankConnection → List BankConnection → Bool
taken b [] = false
taken b (c ∷ cs) = (b.client_id == c.client_id && same b.bank_code c.bank_code) || taken b cs

abbrev is_auth_method : Bytes → Bool
is_auth_method s =
    same s (codes "OAUTH2_MTLS")
    || same s (codes "OAUTH2_CERT")
    || same s (codes "API_KEY")
    || same s (codes "CERTIFICATE_A1")

-- The code as a CHAR(3) column keeps it; codes are ASCII.
unfoldable pub pad : BankConnection → BankConnection
pad b = record b { bank_code = padded b.bank_code }
  where
    padded : Bytes → Bytes
    padded [] = codes "   "
    padded (x ∷ []) = x ∷ codes "  "
    padded (x ∷ y ∷ []) = x ∷ y ∷ codes " "
    padded s = s

-- `InsertBankConnection`
unfoldable pub insert_row : BankConnection → Statement
insert_row b rows =
    if is_auth_method b.auth_method && leb (length b.bank_code) 3 && not (taken (pad b) rows)
    then some (rows ++ pad b ∷ [])
    else none

-- `GetBankConnection` of the queries: `none` stands for every error.
abbrev pub read_at : List Fault → ℕ → ℕ → Desk → Option BankConnection × Desk
read_at [] id tenant d = (find id tenant d.connections, d)
read_at (none_at_all ∷ rest) id tenant d =
    (find id tenant d.connections, record d { faults = rest })
read_at (_ ∷ rest) id tenant d = (none, record d { faults = rest })

unfoldable pub read_row : ℕ → ℕ → Desk → Option BankConnection × Desk
read_row id tenant d = read_at d.faults id tenant d

abbrev validated_at : ConnectionStatus → ℕ → Option ℕ → Option ℕ
validated_at active now _ = some now
validated_at _ now old = old

-- `UpdateBankConnectionStatus`
abbrev pub restate : ConnectionStatus → ℕ → Option Bytes → ℕ → BankConnection → BankConnection
restate status attempts error now b = record b {
  status = status;
  validation_attempts = attempts;
  last_validation_error = error;
  last_validated_at = validated_at status now b.last_validated_at;
}

unfoldable pub set_status : ℕ → ℕ → ConnectionStatus → ℕ → Option Bytes → Desk → Bool × Desk
set_status id tenant status attempts error d =
    write (λ rows. some (change id tenant (restate status attempts error d.now) rows)) d

module _ (vault : Vault) where
  -- A field of `encryptFields`.
  abbrev pub sealed : Bytes → Bytes → Bytes
  sealed nonce [] = []
  sealed nonce s = vault.seal nonce s

  -- What a request puts into a row: every field is sealed with the one nonce.
  unfoldable pub encrypt_fields : Bytes → ConnectionReq → BankConnection → BankConnection
  encrypt_fields nonce req b = record b {
    credentials_enc = sealed nonce req.credentials;
    certificate_enc = sealed nonce req.cert_pem;
    private_key_enc = sealed nonce req.key_pem;
    nonce = nonce;
    sftp_host = req.sftp_host;
    sftp_user = req.sftp_user;
    sftp_key_enc = sealed nonce req.sftp_key_pem;
    sftp_remessa_dir = req.sftp_remessa;
    sftp_retorno_dir = req.sftp_retorno;
  }

  -- `plain, _ := gcm.Open(…)`
  abbrev pub opened : Bytes → Bytes → Bytes
  opened nonce [] = []
  opened nonce s = elim (vault.open_sealed nonce s) [ none ↦ [] | some plain ↦ plain ]

  abbrev pub no_credentials : BankCredentials
  no_credentials = record {
    client_id = [];
    client_secret = [];
    api_key = [];
    cert_pem = [];
    key_pem = [];
    sftp_host = [];
    sftp_user = [];
    sftp_key_pem = [];
    sftp_remessa = [];
    sftp_retorno = [];
  }

  abbrev pub stored_credentials : Bytes → Bytes → Option BankCredentials
  stored_credentials nonce [] = some no_credentials
  stored_credentials nonce s = elim (vault.open_sealed nonce s) [
    | none ↦ none
    | some plain ↦ some (vault.credentials_of plain)
  ]

  abbrev pub with_files : BankConnection → BankCredentials → BankCredentials
  with_files b creds = record creds {
    cert_pem = opened b.nonce b.certificate_enc;
    key_pem = opened b.nonce b.private_key_enc;
    sftp_host = b.sftp_host;
    sftp_user = b.sftp_user;
    sftp_key_pem = opened b.nonce b.sftp_key_enc;
    sftp_remessa = b.sftp_remessa_dir;
    sftp_retorno = b.sftp_retorno_dir;
  }

  -- `decryptCredentials`; `none` is its error.
  unfoldable pub decrypt_credentials : BankConnection → Option BankCredentials
  decrypt_credentials b = elim (stored_credentials b.nonce b.credentials_enc) [
    | none ↦ none
    | some creds ↦ some (with_files b creds)
  ]
