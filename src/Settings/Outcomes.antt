-- ===== src/Settings/Outcomes.antt =====
-- When a validation succeeds, and the credentials that it reads back.
use payments_hub.Base.{
  ℕ, ◌+◌, ◌<◌, ◌≡◌, refl, sym, ap, ◌∙◌, Bool, true, false, Option, none, some, [], ◌∷◌, ltb,
  if◌then◌else◌, arith,
}
use payments_hub.Base.Bytes.{Bytes}
use payments_hub.Base.Result.{Error, Result, ok, err}
use payments_hub.Banks.Validators.{BankCredentials}
use payments_hub.Settings.{BankConnection, Desk, ConnectionReq, Vault}
use payments_hub.Settings.Connections.{
  read_row, decrypt_credentials, sealed, opened, encrypt_fields, stored_credentials, no_credentials,
}
use payments_hub.Settings.Connections.{Reply}
use payments_hub.Settings.Handlers.{
  validate, validate_row, check_row, check_with, conclude, new_row,
}

module _ (vault : Vault) (tenant : ℕ) where
  -- What a success says of the row.
  abbrev pub Approves : BankConnection → Type 0
  Approves b =
      (creds : BankCredentials) × (check : BankCredentials → Result (Unit {0}))
      × (b.validation_attempts < 3)
      × (decrypt_credentials vault b ≡ some creds)
      × (vault.validator_of b.bank_code ≡ some check)
      × (check creds ≡ ok tt)

  conclude-ok :
      (id n : ℕ) (text : Error → Bytes) (r : Result (Unit {0})) (d : Desk)
      → (conclude vault tenant id n text r d).0.code ≡ 200
      → r ≡ ok tt
  unfolding conclude
  conclude-ok id n text (ok u) d h = refl
  conclude-ok id n text (err e) d h = absurd (ground (arith, h))

  check_with-ok :
      (id n : ℕ) (code : Bytes) (creds : BankCredentials)
      (o : Option (BankCredentials → Result (Unit {0}))) (d : Desk)
      → (check_with vault tenant id n code creds o d).0.code ≡ 200
      → (check : BankCredentials → Result (Unit {0})) × (o ≡ some check) × (check creds ≡ ok tt)
  unfolding check_with
  check_with-ok id n code creds none d h = absurd (ground (arith, h))
  check_with-ok id n code creds (some check) d h =
      (check, refl, conclude-ok id n _ (check creds) d h)

  check_row-ok :
      (id n : ℕ) (code : Bytes) (o : Option BankCredentials) (d : Desk)
      → (check_row vault tenant id n code o d).0.code ≡ 200
      → (creds : BankCredentials) × (check : BankCredentials → Result (Unit {0})) × (o ≡ some creds)
        × (vault.validator_of code ≡ some check)
        × (check creds ≡ ok tt)
  unfolding check_row
  check_row-ok id n code none d h = absurd (ground (arith, h))
  check_row-ok id n code (some creds) d h =
      let (check, e, f) = check_with-ok id n code creds (vault.validator_of code) d h in
      (creds, check, refl, e, f)

  if-ok :
      (b : Bool) (x y : Reply × Desk)
      → x.0.code ≡ 422
      → (if b then x else y).0.code ≡ 200
      → (b ≡ false) × (y.0.code ≡ 200)
  if-ok true x y e h = absurd (ground arith)
  if-ok false x y e h = (refl, h)

  row-Approves :
      (id : ℕ) (b : BankConnection) (d : Desk)
      → (validate_row vault tenant id (some b) d).0.code ≡ 200
      → Approves b
  unfolding validate_row
  row-Approves id b d h =
      let (e, k) = if-ok (ltb 3 (b.validation_attempts + 1)) _ _ refl h in
      let (creds, check, f, g, l) =
        check_row-ok id (b.validation_attempts + 1) b.bank_code (decrypt_credentials vault b) _ k in
      (creds, check, ground arith, f, g, l)

  row_answer :
      (id : ℕ) (row : Option BankConnection) (d : Desk)
      → (validate_row vault tenant id row d).0.code ≡ 200
      → (b : BankConnection) × (row ≡ some b) × Approves b
  unfolding validate_row
  row_answer id none d h = absurd (ground (arith, h))
  row_answer id (some b) d h = (b, refl, row-Approves id b d h)

  -- A validation is answered with success only where the row was read, has counted fewer than three
  -- attempts, its credentials were opened, and the validator of its bank accepted them.
  pub validate-success :
      (id : ℕ) (d : Desk)
      → (validate vault tenant (some id) d).0.code ≡ 200
      → (b : BankConnection) × ((read_row id tenant d).0 ≡ some b) × Approves b
  unfolding validate
  validate-success id d h = row_answer id (read_row id tenant d).0 (read_row id tenant d).1 h

-- The credentials that a request names.
abbrev named : Vault → Bytes → BankCredentials
named vault [] = no_credentials vault
named vault s = vault.credentials_of s

abbrev pub credentials_in : Vault → ConnectionReq → BankCredentials
credentials_in vault req = record (named vault req.credentials) {
  cert_pem = req.cert_pem;
  key_pem = req.key_pem;
  sftp_host = req.sftp_host;
  sftp_user = req.sftp_user;
  sftp_key_pem = req.sftp_key_pem;
  sftp_remessa = req.sftp_remessa;
  sftp_retorno = req.sftp_retorno;
}

module _ (vault : Vault) (tenant : ℕ)
    (opens : (nonce s : Bytes) → vault.open_sealed nonce (vault.seal nonce s) ≡ some s)
    (tagged : (nonce s : Bytes) → (x : ℕ) × (xs : Bytes) × (vault.seal nonce s ≡ x ∷ xs)) where
  opened-sealed : (nonce s : Bytes) → opened vault nonce (sealed vault nonce s) ≡ s
  opened-sealed nonce [] = refl
  opened-sealed nonce (c ∷ s) = opened_text (tagged nonce (c ∷ s))
    where
      opened_text :
          (x : ℕ) × (xs : Bytes) × (vault.seal nonce (c ∷ s) ≡ x ∷ xs)
          → opened vault nonce (vault.seal nonce (c ∷ s)) ≡ c ∷ s
      opened_text (x, xs, e) =
          rw (e, ap (vault.open_sealed nonce) (sym e) ∙ opens nonce (c ∷ s), opened) refl

  stored-sealed :
      (nonce s : Bytes)
      → stored_credentials vault nonce (sealed vault nonce s) ≡ some (named vault s)
  stored-sealed nonce [] = refl
  stored-sealed nonce (c ∷ s) = stored_text (tagged nonce (c ∷ s))
    where
      stored_text :
          (x : ℕ) × (xs : Bytes) × (vault.seal nonce (c ∷ s) ≡ x ∷ xs)
          → stored_credentials vault nonce (vault.seal nonce (c ∷ s)) ≡ some (named vault (c ∷ s))
      stored_text (x, xs, e) =
          rw (e, ap (vault.open_sealed nonce) (sym e) ∙ opens nonce (c ∷ s), stored_credentials)
            refl

  -- Where the cipher opens what it has sealed and no sealed text is empty: from the row that a
  -- request creates, the credentials, the files and the SFTP fields of the request are read back.
  pub decrypt_credentials-new_row :
      (req : ConnectionReq) (d : Desk)
      → decrypt_credentials vault (new_row vault tenant req d) ≡ some (credentials_in vault req)
  unfolding decrypt_credentials new_row encrypt_fields
  decrypt_credentials-new_row req d =
      rw
        (
          decrypt_credentials,
          stored-sealed (vault.nonce d.drawn) req.credentials,
          opened-sealed (vault.nonce d.drawn) req.cert_pem,
          opened-sealed (vault.nonce d.drawn) req.key_pem,
          opened-sealed (vault.nonce d.drawn) req.sftp_key_pem,
        )
        refl
