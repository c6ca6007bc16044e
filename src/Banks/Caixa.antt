-- ===== src/Banks/Caixa.antt =====
-- internal/adapters/banks/caixa/rest.go: the client of Caixa, whose transfers go by CNAB files.
use payments_hub.Base.Bytes.{Bytes, codes}
use payments_hub.Base.{[]}
use payments_hub.Base.Result.{use_batch}
use payments_hub.Queue.{SendPixRequest}
use payments_hub.Banks.Wire.{Call, pure, raise}
use payments_hub.Banks.Pix.{
  SendPixResult, PixStatusResult, PrevalidatePixRequest, PrevalidatePixResult, PaymentGateway,
}

-- `SendPix`
unfoldable pub send_pix : SendPixRequest → Call SendPixResult
send_pix _ = raise use_batch

-- `GetPixStatus`
unfoldable pub get_pix_status : Bytes → Call PixStatusResult
get_pix_status _ = raise use_batch

-- `PrevalidatePix`
unfoldable pub prevalidate_pix : PrevalidatePixRequest → Call PrevalidatePixResult
prevalidate_pix _ = pure (record {
  verdict = codes "WARN";
  reason = codes "Caixa does not expose DICT pre-validation; will be validated at CNAB submission";
  owner_name = [];
  owner_doc = [];
})

abbrev pub gateway : PaymentGateway
gateway = record {
  send_pix = send_pix;
  get_pix_status = get_pix_status;
  prevalidate_pix = prevalidate_pix;
}
