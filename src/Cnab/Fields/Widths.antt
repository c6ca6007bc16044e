-- ===== src/Cnab/Fields/Widths.antt =====
-- Every field has the width that is asked for, whatever the value (fields.go).
use payments_hub.Base.{
  ℕ, suc, ◌+◌, ◌≤◌, ◌<◌, ◌^◌, ◌≡◌, refl, ◌∙◌, Bool, arith, length, length-append, length-take,
  length-drop, length-replicate, ◌++◌, take, drop, replicate, leb, if◌then◌else◌, ◌-◌,
}
use payments_hub.Base.Int.{ℤ}
use payments_hub.Base.Bytes.{Bytes}
use payments_hub.Base.Decimal.{decimal, length-decimal}
use payments_hub.Cnab.Layout.{CivilTime, IsPrintable}
use payments_hub.Cnab.Fields.{
  pad_left, pad_left_num, pad_left_num_str, pad_right, pad_right_alpha, blank, append_int,
  format_date, format_time,
}

pub length-pad_left : (s : Bytes) (w : ℕ) → length (pad_left s w) ≡ w
unfolding pad_left
length-pad_left s w = ground (
  arith,
  length-drop (length s - w) s,
  length-append (replicate (w - length s) b'0') s,
  length-replicate {A = ℕ} (w - length s) b'0',
)

pub length-pad_right : (s : Bytes) (w : ℕ) → length (pad_right s w) ≡ w
unfolding pad_right
length-pad_right s w = ground (
  arith,
  length-take w s,
  length-append s (replicate (w - length s) b' '),
  length-replicate {A = ℕ} (w - length s) b' ',
)

pub length-pad_left_num : (v : ℤ) (w : ℕ) → length (pad_left_num v w) ≡ w
unfolding pad_left_num
length-pad_left_num v w = length-pad_left _ w

pub length-pad_left_num_str : (s : Bytes) (w : ℕ) → length (pad_left_num_str s w) ≡ w
unfolding pad_left_num_str
length-pad_left_num_str s w = length-pad_left _ w

pub length-pad_right_alpha :
    (is_print : ℕ → Bool) (s : Bytes) (w : ℕ) → length (pad_right_alpha is_print s w) ≡ w
unfolding pad_right_alpha
length-pad_right_alpha is_print s w = length-pad_right _ w

pub length-blank : (w : ℕ) → length (blank w) ≡ w
unfolding blank
length-blank w = length-replicate {A = ℕ} w b' '

length-append_int : (n w : ℕ) → n < 10 ^ suc w → length (append_int n (suc w)) ≡ suc w
unfolding append_int
length-append_int n w h = omega (
  arith,
  length-decimal n w h,
  length-append {0} (replicate (suc w - length (decimal n)) b'0') (decimal n),
  length-replicate {A = ℕ} (suc w - length (decimal n)) b'0',
)

pub length-format_date : (t : CivilTime) → IsPrintable t → length (format_date t) ≡ 8
unfolding format_date
length-format_date t h = omega (
  arith,
  length-append {0} (append_int t.day 2) (append_int t.month 2 ++ append_int t.year 4),
  length-append {0} (append_int t.month 2) (append_int t.year 4),
  length-append_int t.day 1 h.day_fits,
  length-append_int t.month 1 h.month_fits,
  length-append_int t.year 3 h.year_fits,
)

pub length-format_time : (t : CivilTime) → IsPrintable t → length (format_time t) ≡ 6
unfolding format_time
length-format_time t h = omega (
  arith,
  length-append {0} (append_int t.hour 2) (append_int t.minute 2 ++ append_int t.second 2),
  length-append {0} (append_int t.minute 2) (append_int t.second 2),
  length-append_int t.hour 1 h.hour_fits,
  length-append_int t.minute 1 h.minute_fits,
  length-append_int t.second 1 h.second_fits,
)

-- The width of each kind of field, for `omega`.
pub ruleset widths =
    (arith, length-pad_left_num, length-pad_left_num_str, length-pad_right_alpha, length-blank)
