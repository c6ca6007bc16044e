-- ===== src/Cnab/Decoder.antt =====
-- internal/adapters/banks/itau/cnab/decoder.go: a retorno file, line by line.
pub mod Split
pub mod RoundTrip
use payments_hub.Base.{
  ℕ, suc, ◌+◌, Bool, true, false, ◌&&◌, List, [], ◌∷◌, ◌++◌, length, get_or, ◌==◌, if◌then◌else◌,
}
use payments_hub.Base.Int.{ℤ}
use payments_hub.Base.Bytes.{Bytes, codes, same}
use payments_hub.Base.Utf8.{trim_space}
use payments_hub.Base.Result.{Result, ok, err, malformed, ◌>>=◌}
use payments_hub.Cnab.Fields.{line_width, read_num, read_string, trim_blanks}
use payments_hub.Cnab.Occurrences.{Verdict, Occurrence, lookup_occurrence, is_ok}

pub record ReturnLine : Type 0 where
  pub batch_number : ℤ
  pub sequence : ℤ
  pub our_number : Bytes
  pub amount_cents : ℤ
  pub occurrence_codes : Bytes
  pub segment : Bytes

pub record Return : Type 0 where
  pub file_header : Bytes
  pub lines : List ReturnLine
  pub total_lines : ℕ

-- `bytes.ReplaceAll(raw, "\r\n", "\n")`
unfoldable pub replace_crlf : Bytes → Bytes
replace_crlf [] = []
replace_crlf (a ∷ []) = a ∷ []
replace_crlf (a ∷ b ∷ s) =
    if a == 13 && b == 10 then replace_crlf (b ∷ s) else a ∷ replace_crlf (b ∷ s)

-- A byte put before the first of the pieces.
add_byte : ℕ → List Bytes → List Bytes
add_byte b [] = (b ∷ []) ∷ []
add_byte b (l ∷ ls) = (b ∷ l) ∷ ls

-- `bytes.Split(raw, "\n")`
unfoldable pub split_lines : Bytes → List Bytes
unfolding add_byte
split_lines [] = [] ∷ []
split_lines (b ∷ s) = if b == 10 then [] ∷ split_lines s else add_byte b (split_lines s)

return_line : Bytes → ReturnLine
return_line line = record {
  batch_number = read_num line 3 7;
  sequence = read_num line 8 13;
  our_number = trim_space (read_string line 70 90);
  amount_cents = read_num line 119 134;
  occurrence_codes = trim_space (read_string line 230 240);
  segment = get_or line 13 0 ∷ [];
}

-- The `switch` on the record's type. A detail record of another segment is passed over before it
-- is counted.
decode_record : ℕ → Bytes → Return → Return
unfolding return_line
decode_record record_type line ret =
    if record_type == b'0'
    then record ret { file_header = trim_blanks line; total_lines = ret.total_lines + 1 }
    else if record_type == b'3'
    then (if get_or line 13 0 == b'A'
        then record ret {
          lines = ret.lines ++ return_line line ∷ [];
          total_lines = ret.total_lines + 1;
        }
        else ret)
    else record ret { total_lines = ret.total_lines + 1 }

unfoldable pub decode_line : Bytes → Return → Result Return
unfolding decode_record
decode_line line ret =
    if length line == 0
    then ok ret
    else if length line == line_width
    then ok (decode_record (get_or line 7 0) line ret)
    else err malformed

unfoldable pub decode_lines : List Bytes → Return → Result Return
decode_lines [] ret = ok ret
decode_lines (line ∷ ls) ret = decode_line line ret >>= decode_lines ls

unfoldable pub decode : Bytes → Result Return
unfolding decode_lines
decode raw =
    decode_lines (split_lines (replace_crlf raw))
      (record { file_header = []; lines = []; total_lines = 0 })

-- The verdict with its reason, which is empty where the verdict is OK.
unfoldable pub occurrence_verdict : Bytes → Verdict × Bytes
occurrence_verdict raw =
    let occ = lookup_occurrence raw in
    if is_ok occ.verdict
    then (occ.verdict, [])
    else (occ.verdict, occ.code ++ (codes ": " ++ occ.description))
