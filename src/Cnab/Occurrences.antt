-- ===== src/Cnab/Occurrences.antt =====
-- internal/adapters/banks/itau/cnab/occurrences.go: the return codes of SISPAG. A description is
-- kept as the text that the table gives.
pub mod Verdicts
use Prim.Native.String.{String}
use payments_hub.Base.{
  ℕ, ◌+◌, ◌%◌, Bool, true, false, ◌&&◌, Option, none, some, List, [], ◌∷◌, length, ltb, ◌==◌,
  if◌then◌else◌,
}
use payments_hub.Base.Bytes.{Bytes, codes, same}
use payments_hub.Base.Utf8.{trim_space, utf8}

-- "WARN" is documented as a verdict, and no row of the table has it.
pub data Verdict : Type 0 where
  accept reject warn : Verdict

-- `occ.Verdict == "OK"`
abbrev pub is_ok : Verdict → Bool
is_ok accept = true
is_ok _ = false

pub record Occurrence : Type 0 where
  pub code : Bytes
  pub description : Bytes
  pub verdict : Verdict

row : String → String → Verdict → Occurrence
row code description verdict = record {
  code = codes code;
  description = utf8 description;
  verdict = verdict;
}

sispag_occurrences : List Occurrence
sispag_occurrences =
    row "00" "Crédito efetuado" accept
    ∷ row "BD" "Pagamento liquidado" accept
    ∷ row "AA" "Controle inválido" reject
    ∷ row "AE" "Tipo de título inválido" reject
    ∷ row "AI" "Data de vencimento inválida" reject
    ∷ row "AJ" "Data de pagamento inválida" reject
    ∷ row "AB" "Código do banco inválido" reject
    ∷ row "AC" "Agência/dígito verificador inválido" reject
    ∷ row "AD" "Conta corrente/dígito verificador inválido" reject
    ∷ row "AF" "Valor do lançamento inválido" reject
    ∷ row "AG" "Tipo/número de inscrição inválido" reject
    ∷ row "AH" "Agência/conta do favorecido encerrada" reject
    ∷ row "AL" "Forma de lançamento inválida" reject
    ∷ row "AN" "Data de pagamento inválida" reject
    ∷ row "AO" "Data inferior à data de geração" reject
    ∷ row "AP" "Dados do favorecido divergentes do cadastro" reject
    ∷ row "AR" "Favorecido deve aceitar o crédito (DOC/TED)" reject
    ∷ row "AS" "CEP inválido" reject
    ∷ row "AT" "UF inválida" reject
    ∷ row "AU" "Endereço incompatível" reject
    ∷ row "AX" "CPF/CNPJ inconsistente" reject
    ∷ row "AY" "Inscrição do favorecido inválida" reject
    ∷ row "AZ" "Título já pago/cancelado" reject
    ∷ row "BA" "Cadastro do favorecido inexistente" reject
    ∷ row "BB" "Título não encontrado" reject
    ∷ row "BC" "Conta do pagador sem saldo" reject
    ∷ row "BE" "Limite operacional excedido" reject
    ∷ row "BF" "Conta pagadora encerrada" reject
    ∷ row "BG" "Conta pagadora bloqueada" reject
    ∷ row "BH" "Conta pagadora não liberada" reject
    ∷ row "BI" "Conta pagadora com saldo insuficiente" reject
    ∷ row "BJ" "CPF/CNPJ pagador inválido" reject
    ∷ row "CA" "Cancelado pelo ordenante" reject
    ∷ row "CB" "Cancelado pelo banco" reject
    ∷ row "CC" "Sem autorização para débito em conta" reject
    ∷ row "CD" "Código de barras inválido" reject
    ∷ row "CE" "Pagamento já processado" reject
    ∷ row "CF" "PIX recusado pelo banco do favorecido" reject
    ∷ row "CG" "Chave PIX inexistente" reject
    ∷ row "CH" "Chave PIX incorreta/inválida" reject
    ∷ row "CI" "PIX indisponível / fora de horário" reject
    ∷ []

-- `sispagOccurrences[code]`
find_code : Bytes → List Occurrence → Option Occurrence
find_code c [] = none
find_code c (o ∷ os) = if same o.code c then some o else find_code c os

unfoldable pub find_occurrence : Bytes → Option Occurrence
unfolding find_code sispag_occurrences row
find_occurrence c = find_code c sispag_occurrences

-- What a pair of bytes contributes: a known code that is no acceptance.
refusal : Option Occurrence → Option Occurrence
refusal none = none
refusal (some o) = if is_ok o.verdict then none else some o

or_else : Option Occurrence → Option Occurrence → Option Occurrence
or_else none o = o
or_else (some o) _ = some o

-- The loop over the pairs of a field of several codes: the first refusal.
scan_pairs : Bytes → Option Occurrence
scan_pairs (a ∷ b ∷ s) = or_else (refusal (find_occurrence (a ∷ b ∷ []))) (scan_pairs s)
scan_pairs _ = none

scanned : Bytes → Option Occurrence → Occurrence
scanned code (some o) = o
scanned code none = record {
  code = code;
  description = utf8 "múltiplos códigos OK";
  verdict = accept;
}

found_or : Occurrence → Option Occurrence → Occurrence
found_or o none = o
found_or _ (some o) = o

-- The part of `LookupOccurrence` behind the trimming.
pub lookup_code : Bytes → Occurrence
unfolding scanned found_or
lookup_code code =
    if length code == 0
    then record { code = []; description = utf8 "sem código"; verdict = accept }
    else found_or
        (if ltb 2 (length code) && length code % 2 == 0
          then scanned code (scan_pairs code)
          else record { code = code; description = utf8 "código desconhecido"; verdict = reject })
        (find_occurrence code)

pub lookup_occurrence : Bytes → Occurrence
lookup_occurrence raw = lookup_code (trim_space raw)
