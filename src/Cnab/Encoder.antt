-- ===== src/Cnab/Encoder.antt =====
-- internal/adapters/banks/itau/cnab/encoder.go: the records of a remessa, field by field, and the
-- buffer that the lines are appended to.
pub mod Lines
pub mod Slices
use payments_hub.Base.{ℕ, Bool, not, List, [], ◌∷◌, ◌++◌, length, ◌==◌, if◌then◌else◌}
use payments_hub.Base.Int.{ℤ}
use payments_hub.Base.Bytes.{Bytes, codes}
use payments_hub.Base.Result.{Result, ok, err, malformed}
use payments_hub.Cnab.Layout.{
  itau_bank_code, CivilTime, FileHeader, BatchHeader, SegmentA, SegmentB, BatchTrailer, FileTrailer,
}
use payments_hub.Cnab.Fields.{
  line_width, pad_left_num, pad_left_num_str, pad_right_alpha, blank, format_date, format_time,
}

pub record Encoder : Type 0 where
  pub buf : Bytes

unfoldable pub new_encoder : Encoder
new_encoder = record { buf = [] }

abbrev pub crlf : Bytes
crlf = 13 ∷ 10 ∷ []

unfoldable pub write_line : Encoder → Bytes → Result Encoder
write_line e line =
    if length line == line_width
    then ok (record e { buf = e.buf ++ (line ++ crlf) })
    else err malformed

-- `f1 + f2 + …`
abbrev pub concat : List Bytes → Bytes
concat [] = []
concat (f ∷ fs) = f ++ concat fs

module _ (is_print : ℕ → Bool) where
  unfoldable pub file_header_fields : FileHeader → List Bytes
  file_header_fields h =
      itau_bank_code
      ∷ codes "0000"
      ∷ codes "0"
      ∷ blank 9
      ∷ codes "2"
      ∷ pad_left_num_str h.company_doc 14
      ∷ pad_right_alpha is_print h.convenio 20
      ∷ pad_left_num_str h.company_agency 5
      ∷ codes " "
      ∷ pad_left_num_str h.company_account 12
      ∷ pad_right_alpha is_print h.company_account_dgt 1
      ∷ codes " "
      ∷ pad_right_alpha is_print h.company_name 30
      ∷ pad_right_alpha is_print (codes "BANCO ITAU S.A.") 30
      ∷ blank 10
      ∷ codes "1"
      ∷ format_date h.created_at
      ∷ format_time h.created_at
      ∷ pad_left_num h.file_sequence 6
      ∷ codes "080"
      ∷ codes "00000"
      ∷ blank 20
      ∷ blank 20
      ∷ blank 29
      ∷ []

  unfoldable pub write_file_header : Encoder → FileHeader → Result Encoder
  write_file_header e h = write_line e (concat (file_header_fields h))

  unfoldable pub batch_header_fields : BatchHeader → List Bytes
  batch_header_fields h =
      itau_bank_code
      ∷ pad_left_num h.batch_number 4
      ∷ codes "1"
      ∷ codes "C"
      ∷ h.service
      ∷ h.forma
      ∷ pad_left_num_str h.layout 3
      ∷ codes " "
      ∷ codes "2"
      ∷ pad_left_num_str h.file_header.company_doc 14
      ∷ pad_right_alpha is_print h.file_header.convenio 20
      ∷ pad_left_num_str h.file_header.company_agency 5
      ∷ codes " "
      ∷ pad_left_num_str h.file_header.company_account 12
      ∷ pad_right_alpha is_print h.file_header.company_account_dgt 1
      ∷ codes " "
      ∷ pad_right_alpha is_print h.file_header.company_name 30
      ∷ pad_right_alpha is_print h.purpose 40
      ∷ pad_right_alpha is_print [] 30
      ∷ pad_left_num_str [] 5
      ∷ pad_right_alpha is_print [] 15
      ∷ pad_right_alpha is_print [] 20
      ∷ pad_right_alpha is_print [] 5
      ∷ pad_right_alpha is_print [] 3
      ∷ pad_right_alpha is_print [] 2
      ∷ blank 8
      ∷ blank 10
      ∷ []

  unfoldable pub write_batch_header : Encoder → BatchHeader → Result Encoder
  write_batch_header e h = write_line e (concat (batch_header_fields h))

  unfoldable pub segment_a_fields : ℤ → SegmentA → List Bytes
  segment_a_fields batch_number seg =
      itau_bank_code
      ∷ pad_left_num batch_number 4
      ∷ codes "3"
      ∷ pad_left_num seg.sequence 5
      ∷ codes "A"
      ∷ codes "000"
      ∷ pad_left_num_str seg.bank_code 3
      ∷ pad_left_num_str seg.agency 5
      ∷ codes " "
      ∷ pad_left_num_str seg.account 12
      ∷ pad_right_alpha is_print seg.account_digit 1
      ∷ codes " "
      ∷ pad_right_alpha is_print seg.beneficiary_name 30
      ∷ pad_right_alpha is_print seg.our_number 20
      ∷ format_date seg.payment_date
      ∷ codes "BRL"
      ∷ codes "000"
      ∷ codes "000000000000000"
      ∷ pad_left_num seg.amount_cents 15
      ∷ pad_right_alpha is_print [] 15
      ∷ pad_right_alpha is_print [] 15
      ∷ codes "        "
      ∷ codes "000000000000000"
      ∷ pad_right_alpha is_print [] 40
      ∷ pad_right_alpha is_print [] 2
      ∷ pad_right_alpha is_print [] 5
      ∷ blank 5
      ∷ codes " "
      ∷ []

  unfoldable pub write_segment_a : Encoder → ℤ → SegmentA → Result Encoder
  write_segment_a e batch_number seg = write_line e (concat (segment_a_fields batch_number seg))

  unfoldable pub segment_b_fields : ℤ → SegmentB → List Bytes
  segment_b_fields batch_number seg =
      itau_bank_code
      ∷ pad_left_num batch_number 4
      ∷ codes "3"
      ∷ pad_left_num seg.sequence 5
      ∷ codes "B"
      ∷ blank 3
      ∷ seg.document_type
      ∷ pad_left_num_str seg.beneficiary_doc 14
      ∷ pad_right_alpha is_print seg.address_line 30
      ∷ pad_left_num_str seg.address_number 5
      ∷ pad_right_alpha is_print seg.complement 15
      ∷ pad_right_alpha is_print seg.neighborhood 15
      ∷ pad_right_alpha is_print seg.city 20
      ∷ pad_left_num_str seg.cep 5
      ∷ pad_right_alpha is_print [] 3
      ∷ pad_right_alpha is_print seg.state 2
      ∷ codes "00000000"
      ∷ codes "000000000000000"
      ∷ codes "000000000000000"
      ∷ codes "000000000000000"
      ∷ codes "000000000000000"
      ∷ codes "000000000000000"
      ∷ pad_right_alpha is_print [] 15
      ∷ blank 15
      ∷ []

  unfoldable pub write_segment_b : Encoder → ℤ → SegmentB → Result Encoder
  write_segment_b e batch_number seg = write_line e (concat (segment_b_fields batch_number seg))

unfoldable pub batch_trailer_fields : BatchTrailer → List Bytes
batch_trailer_fields t =
    itau_bank_code
    ∷ pad_left_num t.batch_number 4
    ∷ codes "5"
    ∷ blank 9
    ∷ pad_left_num t.record_count 6
    ∷ pad_left_num t.total_cents 18
    ∷ codes "000000000000000000"
    ∷ codes "000000"
    ∷ blank 165
    ∷ blank 10
    ∷ []

unfoldable pub write_batch_trailer : Encoder → BatchTrailer → Result Encoder
write_batch_trailer e t = write_line e (concat (batch_trailer_fields t))

unfoldable pub file_trailer_fields : FileTrailer → List Bytes
file_trailer_fields t =
    itau_bank_code
    ∷ codes "9999"
    ∷ codes "9"
    ∷ blank 9
    ∷ pad_left_num t.batch_count 6
    ∷ pad_left_num t.record_count 6
    ∷ codes "000000"
    ∷ blank 205
    ∷ []

unfoldable pub write_file_trailer : Encoder → FileTrailer → Result Encoder
write_file_trailer e t = write_line e (concat (file_trailer_fields t))
