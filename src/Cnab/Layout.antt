-- ===== src/Cnab/Layout.antt =====
-- internal/adapters/banks/itau/cnab/layout.go: the records of a file. A time is given by its
-- calendar fields, which are all that the encoder prints of it.
use payments_hub.Base.{ℕ, ◌<◌}
use payments_hub.Base.Int.{ℤ}
use payments_hub.Base.Bytes.{Bytes, codes}

abbrev pub itau_bank_code : Bytes
itau_bank_code = codes "341"

pub record CivilTime : Type 0 where
  pub year : ℕ
  pub month : ℕ
  pub day : ℕ
  pub hour : ℕ
  pub minute : ℕ
  pub second : ℕ

-- The fields fit the places that a date and a time of day have in a record.
pub record IsPrintable (t : CivilTime) : Type 0 where
  pub year_fits : t.year < 10000
  pub month_fits : t.month < 100
  pub day_fits : t.day < 100
  pub hour_fits : t.hour < 100
  pub minute_fits : t.minute < 100
  pub second_fits : t.second < 100

pub record FileHeader : Type 0 where
  pub company_doc : Bytes
  pub company_agency : Bytes
  pub company_account : Bytes
  pub company_account_dgt : Bytes
  pub company_name : Bytes
  pub created_at : CivilTime
  pub file_sequence : ℤ
  pub convenio : Bytes

pub record BatchHeader : Type 0 where
  pub batch_number : ℤ
  pub service : Bytes
  pub forma : Bytes
  pub layout : Bytes
  pub file_header : FileHeader
  pub purpose : Bytes

pub record SegmentA : Type 0 where
  pub sequence : ℤ
  pub bank_code : Bytes
  pub agency : Bytes
  pub agency_digit : Bytes
  pub account : Bytes
  pub account_digit : Bytes
  pub beneficiary_name : Bytes
  pub owner_doc : Bytes
  pub document_number : Bytes
  pub payment_date : CivilTime
  pub amount_cents : ℤ
  pub our_number : Bytes

pub record SegmentB : Type 0 where
  pub sequence : ℤ
  pub beneficiary_doc : Bytes
  pub document_type : Bytes
  pub address_line : Bytes
  pub address_number : Bytes
  pub complement : Bytes
  pub neighborhood : Bytes
  pub city : Bytes
  pub cep : Bytes
  pub state : Bytes

pub record BatchTrailer : Type 0 where
  pub batch_number : ℤ
  pub record_count : ℤ
  pub total_cents : ℤ

pub record FileTrailer : Type 0 where
  pub batch_count : ℤ
  pub record_count : ℤ
