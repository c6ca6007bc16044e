-- ===== src/Banks/Pix.antt =====
-- `PaymentGateway` of internal/app/ports as the clients of the banks implement it, and what these
-- clients share. The raw answer that each result carries along is left out.
pub mod Amounts
use payments_hub.Base.{
  ℕ, suc, ◌/◌, ◌%◌, Bool, false, ◌||◌, Option, none, some, List, [], ◌∷◌, ◌++◌, length, ltb,
  if◌then◌else◌,
}
use payments_hub.Base.Bytes.{Bytes, codes, same}
use payments_hub.Base.Decimal.{signed_decimal}
use payments_hub.Base.Int.{ℤ, pos, negsuc, sub_ℕ}
use payments_hub.Base.Result.{Result, ok, err, bad_response}
use payments_hub.Payment.Lifecycle.{Status}
use payments_hub.Queue.{SendPixRequest}
use payments_hub.Banks.Wire.{Outside, Call, Response, lift}

pub record SendPixResult : Type 0 where
  pub bank_reference : Bytes
  pub end_to_end_id : Bytes
  pub status : Status
  pub submitted_at : ℕ

pub record PixStatusResult : Type 0 where
  pub bank_reference : Bytes
  pub end_to_end_id : Bytes
  pub status : Status
  pub settled_at : Option ℕ
  pub reason : Bytes

pub record PrevalidatePixRequest : Type 0 where
  pub key_type : Bytes
  pub key_value : Bytes

pub record PrevalidatePixResult : Type 0 where
  pub verdict : Bytes
  pub reason : Bytes
  pub owner_name : Bytes
  pub owner_doc : Bytes

pub record PaymentGateway : Type 0 where
  pub send_pix : SendPixRequest → Call SendPixResult
  pub get_pix_status : Bytes → Call PixStatusResult
  pub prevalidate_pix : PrevalidatePixRequest → Call PrevalidatePixResult

-- A `case` of a switch on a string.
abbrev pub one_of : List Bytes → Bytes → Bool
one_of [] s = false
one_of (t ∷ ts) s = same s t || one_of ts s

-- Go's `/ 100` and `% 100`, which round towards zero.
abbrev pub quot100 : ℤ → ℤ
quot100 (pos n) = pos (n / 100)
quot100 (negsuc n) = sub_ℕ 0 (suc n / 100)

abbrev pub rem100 : ℤ → ℤ
rem100 (pos n) = pos (n % 100)
rem100 (negsuc n) = sub_ℕ 0 (suc n % 100)

-- `%02d`
unfoldable pub two_digits : ℤ → Bytes
two_digits n =
    if ltb (length (signed_decimal n)) 2 then b'0' ∷ signed_decimal n else signed_decimal n

-- `formatValor`, of which six clients have a copy.
unfoldable pub format_valor : ℤ → Bytes
format_valor cents = signed_decimal (quot100 cents) ++ codes "." ++ two_digits (rem100 cents)

-- `json.Unmarshal` into a struct of strings
unfoldable pub parse : Outside → List Bytes → Response → Call (Bytes → Bytes)
parse out tags r = lift (parsed (out.unmarshal tags r.body))
  where
    parsed : Option (Bytes → Bytes) → Result (Bytes → Bytes)
    parsed none = err bad_response
    parsed (some f) = ok f

abbrev pub verdict_of : Bool → Bytes
verdict_of rejected = if rejected then codes "REJECT" else codes "OK"
