-- ===== src/Cnab/Encoder/Lines.antt =====
-- The width of each record, and what the encoder appends (encoder.go).
use payments_hub.Base.{
  ℕ, ◌+◌, ◌≡◌, ◌≢◌, refl, ◌∙◌, Bool, List, [], ◌∷◌, ◌++◌, arith, length, length-append, ◌==◌,
  if◌then◌else◌,
}
use payments_hub.Base.Int.{ℤ}
use payments_hub.Base.Bytes.{Bytes}
use payments_hub.Base.Result.{ok, err, malformed}
use payments_hub.Cnab.Layout.{
  IsPrintable, FileHeader, BatchHeader, SegmentA, SegmentB, BatchTrailer, FileTrailer,
}
use payments_hub.Cnab.Fields.{line_width}
use payments_hub.Cnab.Fields.Widths.{widths, length-format_date, length-format_time}
use payments_hub.Cnab.Encoder.{
  Encoder, write_line, crlf, concat, file_header_fields, batch_header_fields, segment_a_fields,
  segment_b_fields, batch_trailer_fields, file_trailer_fields, write_file_header,
  write_batch_header, write_segment_a, write_segment_b, write_batch_trailer, write_file_trailer,
}

-- The lengths of the fields, added up.
abbrev pub total : List Bytes → ℕ
total [] = 0
total (f ∷ fs) = length f + total fs

pub length-concat : (fs : List Bytes) → length (concat fs) ≡ total fs
length-concat [] = refl
length-concat (f ∷ fs) = omega (arith, length-append {0} f (concat fs), length-concat fs)

module _ (is_print : ℕ → Bool) where
  total-file_header :
      (h : FileHeader) → IsPrintable h.created_at → total (file_header_fields is_print h) ≡ 240
  unfolding file_header_fields
  total-file_header h d =
      omega (widths, length-format_date h.created_at d, length-format_time h.created_at d)

  total-batch_header :
      (h : BatchHeader)
      → total (batch_header_fields is_print h) ≡ 236 + (length h.service + length h.forma)
  unfolding batch_header_fields
  total-batch_header h = omega widths

  pub total-segment_a :
      (batch_number : ℤ) (seg : SegmentA)
      → IsPrintable seg.payment_date
      → total (segment_a_fields is_print batch_number seg) ≡ 240
  unfolding segment_a_fields
  total-segment_a batch_number seg d = omega (widths, length-format_date seg.payment_date d)

  total-segment_b :
      (batch_number : ℤ) (seg : SegmentB)
      → total (segment_b_fields is_print batch_number seg) ≡ 239 + length seg.document_type
  unfolding segment_b_fields
  total-segment_b batch_number seg = omega widths

total-batch_trailer : (t : BatchTrailer) → total (batch_trailer_fields t) ≡ 240
unfolding batch_trailer_fields
total-batch_trailer t = omega widths

total-file_trailer : (t : FileTrailer) → total (file_trailer_fields t) ≡ 240
unfolding file_trailer_fields
total-file_trailer t = omega widths

-- What the encoder holds after one more line made of these fields.
abbrev pub appended : Encoder → List Bytes → Encoder
appended e fs = record e { buf = e.buf ++ (concat fs ++ crlf) }

write_line-ok :
    (e : Encoder) (fs : List Bytes) → total fs ≡ 240 → write_line e (concat fs) ≡ ok (appended e fs)
unfolding write_line
write_line-ok e fs h = ground (arith, length-concat fs)

write_line-malformed :
    (e : Encoder) (fs : List Bytes) → total fs ≢ 240 → write_line e (concat fs) ≡ err malformed
unfolding write_line
write_line-malformed e fs h = ground (arith, length-concat fs)

module _ (is_print : ℕ → Bool) (e : Encoder) where
  pub write_segment_a-ok :
      (batch_number : ℤ) (seg : SegmentA)
      → IsPrintable seg.payment_date
      → write_segment_a is_print e batch_number seg
        ≡ ok (appended e (segment_a_fields is_print batch_number seg))
  unfolding write_segment_a
  write_segment_a-ok batch_number seg d =
      write_line-ok e (segment_a_fields is_print batch_number seg)
        (total-segment_a is_print batch_number seg d)

  -- The file header, segment A and the two trailers are never refused: whatever the values, dates
  -- that fit their places make a line of 240 bytes, which is appended with CRLF behind what the
  -- buffer held.
  pub fixed_records_append :
      (h : FileHeader) (batch_number : ℤ) (seg : SegmentA) (bt : BatchTrailer) (ft : FileTrailer)
      → IsPrintable h.created_at
      → IsPrintable seg.payment_date
      → (write_file_header is_print e h ≡ ok (appended e (file_header_fields is_print h)))
        × (length (concat (file_header_fields is_print h)) ≡ line_width)
        × (write_segment_a is_print e batch_number seg
            ≡ ok (appended e (segment_a_fields is_print batch_number seg)))
        × (length (concat (segment_a_fields is_print batch_number seg)) ≡ line_width)
        × (write_batch_trailer e bt ≡ ok (appended e (batch_trailer_fields bt)))
        × (length (concat (batch_trailer_fields bt)) ≡ line_width)
        × (write_file_trailer e ft ≡ ok (appended e (file_trailer_fields ft)))
        × (length (concat (file_trailer_fields ft)) ≡ line_width)
  unfolding write_file_header write_batch_trailer write_file_trailer
  fixed_records_append h batch_number seg bt ft d d' = (
    write_line-ok e (file_header_fields is_print h) (total-file_header is_print h d),
    length-concat (file_header_fields is_print h) ∙ total-file_header is_print h d,
    write_segment_a-ok batch_number seg d',
    length-concat (segment_a_fields is_print batch_number seg)
        ∙ total-segment_a is_print batch_number seg d',
    write_line-ok e (batch_trailer_fields bt) (total-batch_trailer bt),
    length-concat (batch_trailer_fields bt) ∙ total-batch_trailer bt,
    write_line-ok e (file_trailer_fields ft) (total-file_trailer ft),
    length-concat (file_trailer_fields ft) ∙ total-file_trailer ft,
  )

  -- The batch header prints two codes and segment B one as they come: each of the two records is
  -- appended exactly when those codes have 4 bytes together, or 1 byte, and is refused otherwise.
  pub coded_records_append :
      (h : BatchHeader) (batch_number : ℤ) (seg : SegmentB)
      → (write_batch_header is_print e h ≡ (
          if length h.service + length h.forma == 4
          then ok (appended e (batch_header_fields is_print h))
          else err malformed))
        × (write_segment_b is_print e batch_number seg ≡ (
            if length seg.document_type == 1
            then ok (appended e (segment_b_fields is_print batch_number seg))
            else err malformed))
  unfolding write_batch_header write_segment_b write_line
  coded_records_append h batch_number seg = (
    ground (arith, length-concat (batch_header_fields is_print h), total-batch_header is_print h),
    ground (
      arith,
      length-concat (segment_b_fields is_print batch_number seg),
      total-segment_b is_print batch_number seg,
    ),
  )
