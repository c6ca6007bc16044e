-- ===== src/Banks/Itau/Gateway.antt =====
-- internal/adapters/banks/itau/rest/pix.go: the transfers of Itaú's client.
use payments_hub.Base.{ℕ, Bool, not, ◌&&◌, Option, none, some, List, [], ◌∷◌, ◌++◌, if◌then◌else◌}
use payments_hub.Base.Bytes.{Bytes, codes, same}
use payments_hub.Base.Decimal.{signed_decimal}
use payments_hub.Base.Int.{ℤ, pos, ltb_ℤ, neg64}
use payments_hub.Base.Result.{bad_response}
use payments_hub.Payment.Lifecycle.{Status, sent, settled, failed}
use payments_hub.Queue.{SendPixRequest}
use payments_hub.Banks.Wire.{Outside, Call, Json, text, object, pure, read, require, ◌>>=◌, ◌>>◌}
use payments_hub.Banks.Pix.{
  SendPixResult, PixStatusResult, PrevalidatePixRequest, PrevalidatePixResult, PaymentGateway,
  one_of, quot100, rem100, two_digits, parse, verdict_of,
}
use payments_hub.Banks.Itau.{Config, new_client, do_request}

-- `formatCents`
abbrev absolute : ℤ → ℤ
absolute cents = if ltb_ℤ cents (pos 0) then neg64 cents else cents

unfoldable pub format_cents : ℤ → Bytes
format_cents cents =
    (if ltb_ℤ cents (pos 0) then codes "-" else [])
    ++ signed_decimal (quot100 (absolute cents))
    ++ codes "."
    ++ two_digits (rem100 (absolute cents))

abbrev pub sent_status : Bytes → Status
sent_status s = if one_of (codes "APROVADO" ∷ codes "FINALIZADO" ∷ []) s then settled else sent

abbrev pub is_settled : Bytes → Bool
is_settled = one_of (codes "APROVADO" ∷ codes "FINALIZADO" ∷ codes "SETTLED" ∷ [])

abbrev pub current_status : Bytes → Status
current_status s =
    if is_settled s
    then settled
    else if one_of (codes "REJEITADO" ∷ codes "FALHOU" ∷ codes "FAILED" ∷ []) s
    then failed
    else sent

abbrev non_empty : Bytes → Bool
non_empty s = not (same s [])

module _ (out : Outside) where
  unfoldable pub send_body : ℕ → SendPixRequest → List (Bytes × Json)
  send_body now req =
      (codes "valor", text (format_cents req.amount))
      ∷ (codes "dataPagamento", text (out.date now))
      ∷ (codes "descricao", text req.description)
      ∷ (
        codes "destinatario",
        object ((codes "tipo", codes "CHAVE") ∷ (codes "chave", req.payee_key_value) ∷ []),
      )
      ∷ []

  -- `SendPix`
  unfoldable pub send_pix : Config → SendPixRequest → Call SendPixResult
  send_pix cfg req = do
    require (non_empty req.idempotency_key) bad_response
    at ← read (λ c. c.now)
    r ←
        do_request out cfg (codes "POST") (codes "/cash-management/v2/pix")
          (some (send_body at req)) ((codes "x-id-idempotente", req.idempotency_key) ∷ [])
    parsed ← parse out (codes "codigoSolicitacao" ∷ codes "status" ∷ codes "endToEndId" ∷ []) r
    require (non_empty (parsed (codes "codigoSolicitacao"))) bad_response
    now ← read (λ c. c.now)
    pure (record {
      bank_reference = parsed (codes "codigoSolicitacao");
      end_to_end_id = parsed (codes "endToEndId");
      status = sent_status (parsed (codes "status"));
      submitted_at = now;
    })

  abbrev settled_at : (Bytes → Bytes) → Option ℕ
  settled_at parsed =
      if is_settled (parsed (codes "status")) && non_empty (parsed (codes "dataLiquidacao"))
      then out.parse_rfc3339 (parsed (codes "dataLiquidacao"))
      else none

  -- `GetPixStatus`
  unfoldable pub get_pix_status : Config → Bytes → Call PixStatusResult
  get_pix_status cfg bank_ref = do
    r ← do_request out cfg (codes "GET") (codes "/cash-management/v2/pix/" ++ bank_ref) none []
    parsed ←
        parse out
          (codes "codigoSolicitacao"
            ∷ codes "status"
            ∷ codes "endToEndId"
            ∷ codes "dataLiquidacao"
            ∷ codes "motivo"
            ∷ [])
          r
    pure (record {
      bank_reference = parsed (codes "codigoSolicitacao");
      end_to_end_id = parsed (codes "endToEndId");
      status = current_status (parsed (codes "status"));
      settled_at = settled_at parsed;
      reason = parsed (codes "motivo");
    })

  -- `PrevalidatePix`
  unfoldable pub prevalidate_pix : Config → PrevalidatePixRequest → Call PrevalidatePixResult
  prevalidate_pix cfg req = do
    r ←
        do_request out cfg (codes "GET") (codes "/cash-management/v2/dict/keys/" ++ req.key_value)
          none []
    parsed ←
        parse out
          (codes "chave"
            ∷ codes "tipoChave"
            ∷ codes "titular"
            ∷ codes "documento"
            ∷ codes "status"
            ∷ codes "descricao"
            ∷ [])
          r
    pure (record {
      verdict =
          verdict_of
            (one_of (codes "INEXISTENTE" ∷ codes "INVALIDO" ∷ []) (parsed (codes "status")));
      reason = parsed (codes "descricao");
      owner_name = parsed (codes "titular");
      owner_doc = parsed (codes "documento");
    })

  abbrev pub gateway : Config → PaymentGateway
  gateway cfg = record {
    send_pix = send_pix (new_client cfg);
    get_pix_status = get_pix_status (new_client cfg);
    prevalidate_pix = prevalidate_pix (new_client cfg);
  }
