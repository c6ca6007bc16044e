-- ===== src/Banks/Validators.antt =====
-- internal/adapters/banks/validators.go: the checks of a bank's credentials before they are stored.
-- The text of an error is left out: what is missing or does not load is `invalid_input`.
use payments_hub.Base.{ℕ, Bool, not, ◌&&◌, ◌||◌, ◌==◌, leb, Option, none, some, List, [], ◌∷◌, ◌++◌}
use payments_hub.Base.Bytes.{Bytes, codes, same}
use payments_hub.Base.Result.{
  Result, err, fail_if, invalid_input, unavailable, auth_failed, unexpected_status, ◌>>◌,
}
use payments_hub.Banks.Wire.{Request, set}

-- `BankCredentials` of internal/adapters/http/handlers/settings.go
pub record BankCredentials : Type 0 where
  pub client_id : Bytes
  pub client_secret : Bytes
  pub api_key : Bytes
  pub cert_pem : Bytes
  pub key_pem : Bytes
  pub sftp_host : Bytes
  pub sftp_user : Bytes
  pub sftp_key_pem : Bytes
  pub sftp_remessa : Bytes
  pub sftp_retorno : Bytes

-- The packages that the validators call: `X509KeyPair` accepts the pair, the status that a bank
-- answers with, or `none`, and `SetBasicAuth`.
pub record Checks : Type 0 where
  pub is_key_pair : Bytes → Bytes → Bool
  pub status_of : Request → Option ℕ
  pub basic_auth : Bytes → Bytes → Bytes

abbrev pub is_empty : Bytes → Bool
is_empty s = same s []

-- What three validators make of the bank's answer.
abbrev pub accept_status : Option ℕ → Result (Unit {0})
accept_status none = err unavailable
accept_status (some s) =
    fail_if (s == 401 || s == 403) auth_failed >> fail_if (leb 400 s) unexpected_status

abbrev form_request : Bytes → Bytes → Request
form_request url body = record {
  method = codes "POST";
  url = url;
  headers = set (codes "Content-Type") (codes "application/x-www-form-urlencoded") [];
  body = some body;
}

abbrev client_form : BankCredentials → Bytes
client_form creds =
    codes "grant_type=client_credentials&client_id="
    ++ creds.client_id
    ++ codes "&client_secret="
    ++ creds.client_secret

module _ (checks : Checks) where
  unfoldable pub validate_itau : BankCredentials → Result (Unit {0})
  validate_itau creds =
      fail_if (is_empty creds.client_id || is_empty creds.client_secret) invalid_input
      >> fail_if (is_empty creds.cert_pem || is_empty creds.key_pem) invalid_input
      >> fail_if (not (checks.is_key_pair creds.cert_pem creds.key_pem)) invalid_input
      >> accept_status (
          checks.status_of
            (form_request (codes "https://sts.itau.com.br/api/oauth/token") (client_form creds)))

  unfoldable pub validate_inter : BankCredentials → Result (Unit {0})
  validate_inter creds =
      fail_if (is_empty creds.client_id || is_empty creds.client_secret) invalid_input
      >> fail_if (is_empty creds.cert_pem || is_empty creds.key_pem) invalid_input
      >> fail_if (not (checks.is_key_pair creds.cert_pem creds.key_pem)) invalid_input
      >> accept_status (
          checks.status_of (
            form_request (codes "https://cdpj.partners.bancointer.com.br/oauth/v2/token")
              (client_form creds ++ codes "&scope=pagamento-pix.write pagamento-pix.read")))

  unfoldable pub validate_bradesco : BankCredentials → Result (Unit {0})
  validate_bradesco creds =
      fail_if (is_empty creds.client_id) invalid_input
      >> fail_if (is_empty creds.cert_pem || is_empty creds.key_pem) invalid_input
      >> fail_if (not (checks.is_key_pair creds.cert_pem creds.key_pem)) invalid_input
      >> accept_status (checks.status_of (basic_request creds))
    where
      basic_request : BankCredentials → Request
      basic_request creds =
          let r =
            form_request (codes "https://proxy.api.prebanco.com.br/auth/server/v1.1/token")
              (codes "grant_type=client_credentials") in
          record r {
            headers =
                set (codes "Authorization") (checks.basic_auth creds.client_id creds.client_secret)
                  r.headers;
          }

  unfoldable pub validate_caixa : BankCredentials → Result (Unit {0})
  validate_caixa creds =
      fail_if (is_empty creds.api_key && is_empty creds.client_id) invalid_input
      >> fail_if (is_empty creds.cert_pem) invalid_input
      >> fail_if (not (checks.is_key_pair creds.cert_pem creds.key_pem)) invalid_input
      >> fail_if (not (is_empty creds.sftp_host) && is_empty creds.sftp_user) invalid_input

  unfoldable pub validate_santander : BankCredentials → Result (Unit {0})
  validate_santander creds =
      fail_if (is_empty creds.client_id || is_empty creds.client_secret) invalid_input
      >> fail_if (is_empty creds.cert_pem || is_empty creds.key_pem) invalid_input
      >> fail_if (not (checks.is_key_pair creds.cert_pem creds.key_pem)) invalid_input

  unfoldable pub validate_bb : BankCredentials → Result (Unit {0})
  validate_bb creds =
      fail_if (is_empty creds.client_id || is_empty creds.client_secret) invalid_input
      >> fail_if (is_empty creds.api_key) invalid_input
      >> fail_if (is_empty creds.cert_pem || is_empty creds.key_pem) invalid_input
      >> fail_if (not (checks.is_key_pair creds.cert_pem creds.key_pem)) invalid_input

  unfoldable pub validate_sicoob : BankCredentials → Result (Unit {0})
  validate_sicoob creds =
      fail_if (is_empty creds.client_id || is_empty creds.client_secret) invalid_input
      >> fail_if (is_empty creds.cert_pem || is_empty creds.key_pem) invalid_input
      >> fail_if (not (checks.is_key_pair creds.cert_pem creds.key_pem)) invalid_input

  unfoldable pub validate_btg : BankCredentials → Result (Unit {0})
  validate_btg creds =
      fail_if (is_empty creds.client_id || is_empty creds.client_secret) invalid_input
      >> fail_if (is_empty creds.cert_pem || is_empty creds.key_pem) invalid_input
      >> fail_if (not (checks.is_key_pair creds.cert_pem creds.key_pem)) invalid_input

  -- `AllValidators`, by their `BankCode`.
  abbrev pub all_validators : List (Bytes × (BankCredentials → Result (Unit {0})))
  all_validators =
      (codes "341", validate_itau)
      ∷ (codes "237", validate_bradesco)
      ∷ (codes "033", validate_santander)
      ∷ (codes "001", validate_bb)
      ∷ (codes "104", validate_caixa)
      ∷ (codes "077", validate_inter)
      ∷ (codes "756", validate_sicoob)
      ∷ (codes "208", validate_btg)
      ∷ []
