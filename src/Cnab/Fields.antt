-- ===== src/Cnab/Fields.antt =====
-- internal/adapters/banks/itau/cnab/fields.go: the fields of a record. `unicode.IsPrint` is the
-- parameter `is_print`.
pub mod Widths
pub mod Numbers
pub mod Clean
pub mod References
use payments_hub.Base.{
  ℕ, zero, suc, ◌+◌, ◌-◌, ◌*◌, ◌%◌, Bool, ◌&&◌, ◌||◌, List, [], ◌∷◌, ◌++◌, leb, ◌==◌, if◌then◌else◌,
  length, take, drop, replicate,
}
use payments_hub.Base.Int.{ℤ, signed64, int64_bound}
use payments_hub.Base.Bytes.{Bytes, is_ascii_digit}
use payments_hub.Base.Utf8.{runes, encode_rune, trim_space}
use payments_hub.Base.Decimal.{decimal, signed_decimal}
use payments_hub.Cnab.Layout.{CivilTime}

abbrev pub line_width : ℕ
line_width = 240

-- The last `width` bytes, or all of them behind zeros.
unfoldable pub pad_left : Bytes → ℕ → Bytes
pad_left s width =
    if leb width (length s)
    then drop (length s - width) s
    else replicate (width - length s) b'0' ++ s

unfoldable pub pad_left_num : ℤ → ℕ → Bytes
unfolding signed_decimal
pad_left_num value width = pad_left (signed_decimal value) width

keep_digits : List ℕ → Bytes
keep_digits [] = []
keep_digits (r ∷ rs) = if is_ascii_digit r then encode_rune r ++ keep_digits rs else keep_digits rs

unfoldable pub strip_non_digits : Bytes → Bytes
unfolding keep_digits
strip_non_digits s = keep_digits (runes s)

unfoldable pub pad_left_num_str : Bytes → ℕ → Bytes
unfolding strip_non_digits
pad_left_num_str s width = pad_left (strip_non_digits s) width

unfoldable pub blank : ℕ → Bytes
blank width = replicate width b' '

unfoldable pub zeros : ℕ → Bytes
zeros width = replicate width b'0'

abbrev one_of : ℕ → List ℕ → Bool
one_of r [] = Bool.false
one_of r (c ∷ cs) = r == c || one_of r cs

-- The cases of the `switch`: accented letters, and the letter that is written for them.
abbrev accents : List (List ℕ × ℕ)
accents =
    (0xE1 ∷ 0xE0 ∷ 0xE2 ∷ 0xE3 ∷ 0xC1 ∷ 0xC0 ∷ 0xC2 ∷ 0xC3 ∷ [], b'A')
    ∷ (0xE9 ∷ 0xE8 ∷ 0xEA ∷ 0xC9 ∷ 0xC8 ∷ 0xCA ∷ [], b'E')
    ∷ (0xED ∷ 0xEC ∷ 0xCD ∷ 0xCC ∷ [], b'I')
    ∷ (0xF3 ∷ 0xF2 ∷ 0xF4 ∷ 0xF5 ∷ 0xD3 ∷ 0xD2 ∷ 0xD4 ∷ 0xD5 ∷ [], b'O')
    ∷ (0xFA ∷ 0xF9 ∷ 0xDA ∷ 0xD9 ∷ 0xFC ∷ 0xDC ∷ [], b'U')
    ∷ (0xE7 ∷ 0xC7 ∷ [], b'C')
    ∷ []

-- The `default` case: letters become capitals, and what does not print is dropped.
printed : (ℕ → Bool) → ℕ → Bytes
printed is_print r =
    if is_print r then encode_rune (if leb b'a' r && leb r b'z' then r - 32 else r) else []

-- The bytes that a rune leaves, by the first case that has it.
normalize_rune : (ℕ → Bool) → List (List ℕ × ℕ) → ℕ → Bytes
unfolding printed
normalize_rune is_print [] r = printed is_print r
normalize_rune is_print ((letters, plain) ∷ cases) r =
    if one_of r letters then plain ∷ [] else normalize_rune is_print cases r

normalize_runes : (ℕ → Bool) → List ℕ → Bytes
normalize_runes is_print [] = []
normalize_runes is_print (r ∷ rs) = normalize_rune is_print accents r ++ normalize_runes is_print rs

unfoldable pub normalize_alpha : (ℕ → Bool) → Bytes → Bytes
unfolding normalize_runes normalize_rune
normalize_alpha is_print s = normalize_runes is_print (runes s)

-- The first `width` bytes, or all of them before blanks.
unfoldable pub pad_right : Bytes → ℕ → Bytes
pad_right s width =
    if leb width (length s) then take width s else s ++ replicate (width - length s) b' '

unfoldable pub pad_right_alpha : (ℕ → Bool) → Bytes → ℕ → Bytes
pad_right_alpha is_print s width = pad_right (normalize_alpha is_print s) width

-- `t.Format`: a number with at least so many digits.
unfoldable pub append_int : ℕ → ℕ → Bytes
append_int n width = replicate (width - length (decimal n)) b'0' ++ decimal n

-- `t.Format("02012006")`
unfoldable pub format_date : CivilTime → Bytes
format_date t = append_int t.day 2 ++ (append_int t.month 2 ++ append_int t.year 4)

-- `t.Format("150405")`
unfoldable pub format_time : CivilTime → Bytes
format_time t = append_int t.hour 2 ++ (append_int t.minute 2 ++ append_int t.second 2)

-- `line[start:end]`
abbrev pub slice : Bytes → ℕ → ℕ → Bytes
slice line start stop = take (stop - start) (drop start line)

-- The bits of the int64 that the loop of `ReadNum` adds up.
read_digits : ℕ → List ℕ → ℕ
read_digits n [] = n
read_digits n (c ∷ cs) =
    read_digits (if is_ascii_digit c then (n * 10 + (c - b'0')) % (2 * int64_bound) else n) cs

unfoldable pub read_num : Bytes → ℕ → ℕ → ℤ
unfolding read_digits
read_num line start stop = signed64 (read_digits 0 (runes (trim_space (slice line start stop))))

-- `strings.TrimRight(s, " ")`
keep_last : ℕ → Bytes → Bytes
keep_last b [] = if b == b' ' then [] else b ∷ []
keep_last b (c ∷ s) = b ∷ c ∷ s

unfoldable pub trim_blanks : Bytes → Bytes
unfolding keep_last
trim_blanks [] = []
trim_blanks (b ∷ s) = keep_last b (trim_blanks s)

unfoldable pub read_string : Bytes → ℕ → ℕ → Bytes
unfolding trim_blanks
read_string line start stop = trim_blanks (slice line start stop)
