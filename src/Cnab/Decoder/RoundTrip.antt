-- ===== src/Cnab/Decoder/RoundTrip.antt =====
-- What the encoder writes, the decoder reads (encoder.go, decoder.go).
use payments_hub.Base.{
  ℕ, ◌+◌, ◌≤◌, ◌<◌, ◌^◌, ◌≡◌, refl, ◌∙◌, ap, sym, Bool, false, List, [], ◌∷◌, ◌++◌, arith, length,
  get_or, take, drop,
}
use payments_hub.Base.Int.{pos}
use payments_hub.Base.Bytes.{Bytes, codes}
use payments_hub.Base.Utf8.{runes, trim_space}
use payments_hub.Base.Result.{ok, ◌>>=◌}
use payments_hub.Cnab.Layout.{SegmentA, IsPrintable}
use payments_hub.Cnab.Fields.{
  line_width, pad_left_num, pad_right_alpha, pad_right, normalize_alpha, blank, read_num,
  read_string, trim_blanks,
}
use payments_hub.Cnab.Fields.Widths.{widths, length-format_date}
use payments_hub.Cnab.Fields.Numbers.{read_num-pad}
use payments_hub.Cnab.Fields.Clean.{
  NoFeed, NoFeed-append, NoFeed-pad_left_num, NoFeed-pad_left_num_str, NoFeed-blank,
  NoFeed-format_date, NoFeed-pad_right_alpha,
}
use payments_hub.Cnab.Fields.References.{IsReference, PrintsAscii, reference_reads_back}
use payments_hub.Cnab.Encoder.{Encoder, concat, segment_a_fields, write_segment_a, crlf}
use payments_hub.Cnab.Encoder.Lines.{
  total, length-concat, total-segment_a, appended, write_segment_a-ok,
}
use payments_hub.Cnab.Encoder.Slices.{slice-concat, get_or-concat, drop-concat, drop-add}
use payments_hub.Cnab.Decoder.{ReturnLine, Return, return_line, decode_record, decode_line, decode}
use payments_hub.Cnab.Decoder.Split.{
  join, AllNoFeed, decode-join, decode_lines-concat, join-concat, AllNoFeed-concat, no_return,
}

-- The line that the decoder is to return for a segment.
abbrev pub read_back : ℕ → SegmentA → ReturnLine
read_back batch seg = record {
  batch_number = pos batch;
  sequence = seg.sequence;
  our_number = seg.our_number;
  amount_cents = seg.amount_cents;
  occurrence_codes = [];
  segment = codes "A";
}

NoFeed-concat : (fs : List Bytes) → AllNoFeed fs → NoFeed (concat fs)
NoFeed-concat [] h = tt
NoFeed-concat (f ∷ fs) h = NoFeed-append f (concat fs) h.0 (NoFeed-concat fs h.1)

-- A detail record whose numbers have their places, and whose reference is printed as it is.
pub record Fits (batch : ℕ) (seg : SegmentA) (sequence amount : ℕ) : Type 0 where
  pub batch_fits : batch < 10 ^ 4
  pub sequence_is : seg.sequence ≡ pos sequence
  pub sequence_fits : sequence < 10 ^ 5
  pub amount_is : seg.amount_cents ≡ pos amount
  pub amount_fits : amount < 10 ^ 15
  pub date_fits : IsPrintable seg.payment_date
  pub reference : IsReference seg.our_number
  pub reference_fits : length seg.our_number ≤ 20

module _ (is_print : ℕ → Bool) (prints : PrintsAscii is_print) (feed_hidden : is_print 10 ≡ false)
    (batch : ℕ) (seg : SegmentA) {sequence amount : ℕ} (h : Fits batch seg sequence amount) where
  abbrev fields : List Bytes
  fields = segment_a_fields is_print (pos batch) seg

  abbrev line : Bytes
  line = concat fields

  read_batch : read_num line 3 7 ≡ pos batch
  unfolding segment_a_fields
  read_batch =
      read_num-pad batch 3 line 3 7 h.batch_fits (omega (arith, h.batch_fits))
        (slice-concat 1 fields (pad_left_num (pos batch) 4) 3 7 refl refl (omega widths))

  read_sequence : read_num line 8 13 ≡ pos sequence
  unfolding segment_a_fields
  read_sequence =
      read_num-pad sequence 4 line 8 13 h.sequence_fits (omega (arith, h.sequence_fits)) (
        slice-concat 3 fields (pad_left_num seg.sequence 5) 8 13 refl (omega widths) (omega widths)
        ∙ ap (λ v. pad_left_num v 5) h.sequence_is)

  read_amount : read_num line 119 134 ≡ pos amount
  unfolding segment_a_fields
  read_amount = read_num-pad amount 14 line 119 134 h.amount_fits (omega (arith, h.amount_fits)) (
      slice-concat 18 fields (pad_left_num seg.amount_cents 15) 119 134 refl
        (omega (widths, length-format_date seg.payment_date h.date_fits)) (omega widths)
      ∙ ap (λ v. pad_left_num v 15) h.amount_is)

  read_reference : trim_space (read_string line 70 90) ≡ seg.our_number
  unfolding segment_a_fields read_string
  read_reference =
      ap (λ s. trim_space (trim_blanks s))
        (slice-concat 13 fields (pad_right_alpha is_print seg.our_number 20) 70 90 refl
          (omega widths) (omega widths))
      ∙ reference_reads_back is_print prints seg.our_number 20 h.reference h.reference_fits

  total_before : total (take 25 fields) ≡ 229
  unfolding segment_a_fields
  total_before = omega (widths, length-format_date seg.payment_date h.date_fits)

  -- The last ten bytes, where a retorno has its codes, are blank.
  read_codes : trim_space (read_string line 230 240) ≡ []
  unfolding segment_a_fields read_string pad_right_alpha pad_right normalize_alpha blank runes
  read_codes =
      let at : drop 229 line ≡ concat (drop 25 fields) =
        rw (← (total_before)) (drop-concat 25 fields) in
      let tail : drop 230 line ≡ drop 1 (concat (drop 25 fields)) =
        drop-add 229 1 line ∙ ap (drop 1) at in
      ap (λ s. trim_space (trim_blanks (take 10 s))) tail ∙ unfold trim_space trim_blanks in refl

  record_type : get_or line 7 0 ≡ b'3'
  unfolding segment_a_fields
  record_type = get_or-concat 2 fields b'3' 7 refl (omega widths)

  segment_letter : get_or line 13 0 ≡ b'A'
  unfolding segment_a_fields
  segment_letter = get_or-concat 4 fields b'A' 13 refl (omega widths)

  line-NoFeed : NoFeed line
  unfolding segment_a_fields
  line-NoFeed = NoFeed-concat fields (
    omega arith,
    (
      NoFeed-pad_left_num (pos batch) 4,
      (
        omega arith,
        (
          NoFeed-pad_left_num seg.sequence 5,
          (
            omega arith,
            (
              omega arith,
              (
                NoFeed-pad_left_num_str seg.bank_code 3,
                (
                  NoFeed-pad_left_num_str seg.agency 5,
                  (
                    omega arith,
                    (
                      NoFeed-pad_left_num_str seg.account 12,
                      (
                        NoFeed-pad_right_alpha is_print feed_hidden seg.account_digit 1,
                        (
                          omega arith,
                          (
                            NoFeed-pad_right_alpha is_print feed_hidden seg.beneficiary_name 30,
                            (
                              NoFeed-pad_right_alpha is_print feed_hidden seg.our_number 20,
                              (
                                NoFeed-format_date seg.payment_date,
                                (
                                  omega arith,
                                  (
                                    omega arith,
                                    (
                                      omega arith,
                                      (
                                        NoFeed-pad_left_num seg.amount_cents 15,
                                        (
                                          NoFeed-pad_right_alpha is_print feed_hidden [] 15,
                                          (
                                            NoFeed-pad_right_alpha is_print feed_hidden [] 15,
                                            (
                                              omega arith,
                                              (
                                                omega arith,
                                                (
                                                  NoFeed-pad_right_alpha is_print feed_hidden [] 40,
                                                  (
                                                    NoFeed-pad_right_alpha is_print feed_hidden []
                                                        2,
                                                    (
                                                      NoFeed-pad_right_alpha is_print feed_hidden []
                                                          5,
                                                      (NoFeed-blank 5, (omega arith, tt)),
                                                    ),
                                                  ),
                                                ),
                                              ),
                                            ),
                                          ),
                                        ),
                                      ),
                                    ),
                                  ),
                                ),
                              ),
                            ),
                          ),
                        ),
                      ),
                    ),
                  ),
                ),
              ),
            ),
          ),
        ),
      ),
    ),
  )

  decode_line-segment_a :
      (ret : Return)
      → decode_line line ret
        ≡ ok (record ret {
          lines = ret.lines ++ return_line line ∷ [];
          total_lines = ret.total_lines + 1;
        })
  unfolding decode_line decode_record
  decode_line-segment_a ret =
      let wide : length line ≡ line_width =
        length-concat fields ∙ total-segment_a is_print (pos batch) seg h.date_fits in
      rw (wide, record_type, segment_letter)

  return_line-segment_a : return_line line ≡ read_back batch seg
  unfolding return_line
  return_line-segment_a = cc (
    read_batch, read_sequence, h.sequence_is, read_reference, read_amount, h.amount_is, read_codes,
    segment_letter,
  )

  -- A detail record of segment A that is written behind a file of whole lines is read back: the
  -- file decodes to what it decoded to before, with one more line, which has the batch number, the
  -- sequence, the reference and the amount that were written. The numbers have to fit their places,
  -- and the reference to consist of digits, capitals and dashes.
  pub decode-write_segment_a :
      (e : Encoder) (ls : List Bytes) (ret : Return)
      → e.buf ≡ join ls
      → AllNoFeed ls
      → decode e.buf ≡ ok ret
      → (e' : Encoder) × (write_segment_a is_print e (pos batch) seg ≡ ok e')
        × (decode e'.buf
            ≡ ok (record ret {
              lines = ret.lines ++ read_back batch seg ∷ [];
              total_lines = ret.total_lines + 1;
            }))
  decode-write_segment_a e ls ret whole clean before = (
    appended e fields,
    write_segment_a-ok is_print e (pos batch) seg h.date_fits,
    (ap decode (ap (λ s. s ++ (line ++ crlf)) whole ∙ sym (join-concat ls line))
        ∙ decode-join (ls ++ line ∷ []) (AllNoFeed-concat ls line clean line-NoFeed)
        ∙ decode_lines-concat ls line no_return
        ∙ ap (λ r. r >>= decode_line line)
            (sym (decode-join ls clean) ∙ ap decode (sym whole) ∙ before)
        ∙ decode_line-segment_a ret
        ∙ ap
            (λ l.
              ok (record ret { lines = ret.lines ++ l ∷ []; total_lines = ret.total_lines + 1 }))
            return_line-segment_a),
  )
