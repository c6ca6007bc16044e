-- ===== src/Banks/Bb.antt =====
-- internal/adapters/banks/bb/rest.go: the client of Banco do Brasil.
use payments_hub.Base.{
  ℕ, zero, Bool, not, ◌&&◌, Option, none, some, List, [], ◌∷◌, ◌++◌, if◌then◌else◌,
}
use payments_hub.Base.Bytes.{Bytes, codes, same}
use payments_hub.Base.Int.{pos}
use payments_hub.Payment.Lifecycle.{Status, sent, settled, failed}
use payments_hub.Queue.{SendPixRequest}
use payments_hub.Banks.Wire.{Outside, Call, Json, text, Request, pure, read, ◌>>=◌}
use payments_hub.Banks.Token.{TokenConfig, auth_basic_header}
use payments_hub.Banks.Core.{ClientConfig, perform}
use payments_hub.Banks.Core
use payments_hub.Banks.Pix.{
  SendPixResult, PixStatusResult, PrevalidatePixRequest, PrevalidatePixResult, PaymentGateway,
  one_of, format_valor, parse, verdict_of,
}

pub record Config : Type 0 where
  pub base_url : Bytes
  pub token_url : Bytes
  pub client_id : Bytes
  pub client_secret : Bytes
  pub gw_app_key : Bytes
  pub scope : Bytes

unfoldable pub token_config : Config → TokenConfig
token_config cfg = record {
  token_url = cfg.token_url;
  client_id = cfg.client_id;
  client_secret = cfg.client_secret;
  scope = cfg.scope;
  auth_style = auth_basic_header;
  extra_form = [];
}

-- The status of a transfer that was sent, and of one that is asked for.
abbrev pub sent_status : Bytes → Status
sent_status s = if one_of (codes "LIQUIDADO" ∷ codes "CONFIRMADO" ∷ []) s then settled else sent

abbrev pub is_settled : Bytes → Bool
is_settled = one_of (codes "LIQUIDADO" ∷ codes "CONFIRMADO" ∷ [])

abbrev pub current_status : Bytes → Status
current_status s =
    if is_settled s
    then settled
    else if one_of (codes "REJEITADO" ∷ codes "FALHOU" ∷ []) s
    then failed
    else sent

module _ (out : Outside) where
  abbrev pub decorate : Config → Request → Request
  decorate cfg r =
      if same cfg.gw_app_key []
      then r
      else record r { url = out.set_query (codes "gw-app-key") cfg.gw_app_key r.url }

  unfoldable pub new_client : Config → ClientConfig
  new_client cfg = Core.new_client (record {
    base_url = cfg.base_url;
    max_retries = pos zero;
    initial_backoff = pos zero;
    token = some (token_config cfg);
    decorator = some (decorate cfg);
  })

  unfoldable pub send_body : SendPixRequest → List (Bytes × Json)
  send_body req =
      (codes "valor", text (format_valor req.amount))
      ∷ (codes "descricao", text req.description)
      ∷ (codes "chave", text req.payee_key_value)
      ∷ []

  -- `SendPix`
  unfoldable pub send_pix : Config → SendPixRequest → Call SendPixResult
  send_pix cfg req = do
    r ←
        perform out (new_client cfg) (codes "POST") (codes "/pix-pagamentos/v2")
          (some (send_body req)) ((codes "x-requisicao-id", req.idempotency_key) ∷ [])
    parsed ← parse out (codes "idTransacao" ∷ codes "endToEndId" ∷ codes "status" ∷ []) r
    now ← read (λ c. c.now)
    pure (record {
      bank_reference = parsed (codes "idTransacao");
      end_to_end_id = parsed (codes "endToEndId");
      status = sent_status (parsed (codes "status"));
      submitted_at = now;
    })

  abbrev settled_at : (Bytes → Bytes) → Option ℕ
  settled_at parsed =
      if is_settled (parsed (codes "status"))
      then out.parse_rfc3339 (parsed (codes "dataLiquidacao"))
      else none

  -- `GetPixStatus`
  unfoldable pub get_pix_status : Config → Bytes → Call PixStatusResult
  get_pix_status cfg bank_ref = do
    r ← perform out (new_client cfg) (codes "GET") (codes "/pix-pagamentos/v2/" ++ bank_ref) none []
    parsed ←
        parse out
          (codes "idTransacao"
            ∷ codes "endToEndId"
            ∷ codes "status"
            ∷ codes "dataLiquidacao"
            ∷ codes "motivo"
            ∷ [])
          r
    pure (record {
      bank_reference = parsed (codes "idTransacao");
      end_to_end_id = parsed (codes "endToEndId");
      status = current_status (parsed (codes "status"));
      settled_at = settled_at parsed;
      reason = parsed (codes "motivo");
    })

  -- `PrevalidatePix`
  unfoldable pub prevalidate_pix : Config → PrevalidatePixRequest → Call PrevalidatePixResult
  prevalidate_pix cfg req = do
    r ←
        perform out (new_client cfg) (codes "GET") (codes "/pix-dict/v1/chaves/" ++ req.key_value)
          none []
    parsed ←
        parse out (codes "nomeCorrentista" ∷ codes "cpfCnpjCorrentista" ∷ codes "status" ∷ []) r
    let key_status = parsed (codes "status") in
        pure (record {
          verdict = verdict_of (not (same key_status []) && not (same key_status (codes "ATIVA")));
          reason = [];
          owner_name = parsed (codes "nomeCorrentista");
          owner_doc = parsed (codes "cpfCnpjCorrentista");
        })

  abbrev pub gateway : Config → PaymentGateway
  gateway cfg = record {
    send_pix = send_pix cfg;
    get_pix_status = get_pix_status cfg;
    prevalidate_pix = prevalidate_pix cfg;
  }
