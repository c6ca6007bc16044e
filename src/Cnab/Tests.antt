-- ===== src/Cnab/Tests.antt =====
-- The theorems on CNAB 240 at concrete records.
use payments_hub.Base.{
  ℕ, ◌+◌, ◌≡◌, refl, ◌<◌, ◌≤◌, Bool, true, ◌&&◌, [], ◌∷◌, ◌++◌, arith, length, leb, ltb, ◌==◌,
  if◌then◌else◌,
}
use payments_hub.Base.Int.{pos}
use payments_hub.Base.Bytes.{codes}
use payments_hub.Base.Utf8.{trim_space}
use payments_hub.Base.Result.{ok, err, malformed}
use payments_hub.Cnab.Layout.{
  CivilTime, IsPrintable, FileHeader, BatchHeader, SegmentA, SegmentB, BatchTrailer, FileTrailer,
}
use payments_hub.Cnab.Fields.{line_width}
use payments_hub.Cnab.Encoder.{
  Encoder, new_encoder, concat, file_header_fields, batch_header_fields, segment_a_fields,
  segment_b_fields, batch_trailer_fields, file_trailer_fields, write_file_header,
  write_batch_header, write_segment_a, write_segment_b, write_batch_trailer, write_file_trailer,
}
use payments_hub.Cnab.Encoder.Lines.{appended, fixed_records_append, coded_records_append}
use payments_hub.Cnab.Occurrences.{is_ok, lookup_occurrence}
use payments_hub.Cnab.Occurrences.Verdicts.{
  accepts, verdict_exact, all_unknown, unknown_codes_accepted,
}
use payments_hub.Cnab.Decoder.{decode, split_lines, replace_crlf, decode_line}
use payments_hub.Cnab.Decoder.Split.{no_return}
use payments_hub.Cnab.Decoder.RoundTrip.{Fits, read_back, decode-write_segment_a}

-- `unicode.IsPrint` up to Latin-1, which is all that these records use.
abbrev is_print : ℕ → Bool
is_print r = leb 32 r && ltb r 127

prints : (c : ℕ) → 32 ≤ c → c < 127 → is_print c ≡ true
prints c lo hi = ground arith

abbrev noon : CivilTime
noon = record { year = 2026; month = 4; day = 12; hour = 12; minute = 0; second = 5 }

noon-IsPrintable : IsPrintable noon
noon-IsPrintable = omega arith

abbrev header : FileHeader
header = record {
  company_doc = codes "12.345.678/0001-90";
  company_agency = codes "1234";
  company_account = codes "56789";
  company_account_dgt = codes "0";
  company_name = codes "Empresa Exemplo";
  created_at = noon;
  file_sequence = pos 1;
  convenio = codes "CONV";
}

abbrev batch : BatchHeader
batch = record {
  batch_number = pos 1;
  service = codes "20";
  forma = codes "03";
  layout = codes "046";
  file_header = header;
  purpose = codes "CREDITO";
}

abbrev credit : SegmentA
credit = record {
  sequence = pos 2;
  bank_code = codes "237";
  agency = codes "0001";
  agency_digit = [];
  account = codes "998877";
  account_digit = codes "1";
  beneficiary_name = codes "Fornecedor A";
  owner_doc = [];
  document_number = [];
  payment_date = noon;
  amount_cents = pos 123456;
  our_number = codes "EXT-77";
}

abbrev address : SegmentB
address = record {
  sequence = pos 3;
  beneficiary_doc = codes "12345678000190";
  document_type = codes "2";
  address_line = codes "Rua A";
  address_number = codes "10";
  complement = [];
  neighborhood = codes "Centro";
  city = codes "Recife";
  cep = codes "50000";
  state = codes "PE";
}

abbrev batch_end : BatchTrailer
batch_end = record { batch_number = pos 1; record_count = pos 4; total_cents = pos 123456 }

abbrev file_end : FileTrailer
file_end = record { batch_count = pos 1; record_count = pos 6 }

fixed_records_append_example :
    (write_file_header is_print new_encoder header
      ≡ ok (appended new_encoder (file_header_fields is_print header)))
    × (length (concat (file_header_fields is_print header)) ≡ line_width)
    × (write_segment_a is_print new_encoder (pos 1) credit
        ≡ ok (appended new_encoder (segment_a_fields is_print (pos 1) credit)))
    × (length (concat (segment_a_fields is_print (pos 1) credit)) ≡ line_width)
    × (write_batch_trailer new_encoder batch_end
        ≡ ok (appended new_encoder (batch_trailer_fields batch_end)))
    × (length (concat (batch_trailer_fields batch_end)) ≡ line_width)
    × (write_file_trailer new_encoder file_end
        ≡ ok (appended new_encoder (file_trailer_fields file_end)))
    × (length (concat (file_trailer_fields file_end)) ≡ line_width)
fixed_records_append_example =
    fixed_records_append is_print new_encoder header (pos 1) credit batch_end file_end
      noon-IsPrintable noon-IsPrintable

coded_records_append_example :
    (write_batch_header is_print new_encoder batch ≡ (
      if length batch.service + length batch.forma == 4
      then ok (appended new_encoder (batch_header_fields is_print batch))
      else err malformed))
    × (write_segment_b is_print new_encoder (pos 1) address ≡ (
        if length address.document_type == 1
        then ok (appended new_encoder (segment_b_fields is_print (pos 1) address))
        else err malformed))
coded_records_append_example = coded_records_append is_print new_encoder batch (pos 1) address

credit-Fits : Fits 1 credit 2 123456
credit-Fits = record {
  batch_fits = omega arith;
  sequence_is = refl;
  sequence_fits = omega arith;
  amount_is = refl;
  amount_fits = omega arith;
  date_fits = noon-IsPrintable;
  reference = ground arith;
  reference_fits = omega arith;
}

decode-write_segment_a_example :
    (e' : Encoder) × (write_segment_a is_print new_encoder (pos 1) credit ≡ ok e')
    × (decode e'.buf
        ≡ ok (record no_return { lines = [] ++ read_back 1 credit ∷ []; total_lines = 0 + 1 }))
unfolding new_encoder decode split_lines replace_crlf decode_line
decode-write_segment_a_example =
    decode-write_segment_a is_print prints refl 1 credit credit-Fits new_encoder [] no_return refl
      tt refl

verdict_exact_example :
    is_ok (lookup_occurrence (codes "BDAE")).verdict ≡ accepts (trim_space (codes "BDAE"))
verdict_exact_example = verdict_exact (codes "BDAE")

-- Two codes that the table does not have.
unknown_codes_accepted_example : is_ok (lookup_occurrence (codes "ZZYY      ")).verdict ≡ true
unfolding trim_space all_unknown
unknown_codes_accepted_example =
    unknown_codes_accepted (codes "ZZYY      ") (omega arith) (omega arith) refl
