-- ===== src/Cnab/Fields/Clean.antt =====
-- No field holds a line feed, and a reference in capitals is printed as it is (fields.go).
use payments_hub.Base.{
  ℕ, zero, suc, ◌-◌, ◌≡◌, ◌≢◌, refl, Bool, true, false, List, [], ◌∷◌, ◌++◌, arith, leb, length,
  take, drop, replicate, if◌then◌else◌,
}
use payments_hub.Base.Int.{ℤ, pos, negsuc}
use payments_hub.Base.Bytes.{Bytes, is_ascii_digit}
use payments_hub.Base.Utf8.{runes, encode_rune}
use payments_hub.Base.Decimal.{decimal, signed_decimal, AllDigits, decimal-AllDigits}
use payments_hub.Cnab.Layout.{CivilTime}
use payments_hub.Cnab.Fields.{
  pad_left, pad_left_num, keep_digits, strip_non_digits, pad_left_num_str, pad_right, one_of,
  accents, printed, normalize_rune, normalize_runes, normalize_alpha, pad_right_alpha, blank,
  append_int, format_date,
}

-- No byte is a line feed.
abbrev pub NoFeed : Bytes → Type 0
NoFeed [] = Unit
NoFeed (b ∷ s) = (b ≢ 10) × NoFeed s

pub NoFeed-append : (s t : Bytes) → NoFeed s → NoFeed t → NoFeed (s ++ t)
NoFeed-append [] t h k = k
NoFeed-append (b ∷ s) t h k = (h.0, NoFeed-append s t h.1 k)

NoFeed-if :
    (b : Bool) (s t : Bytes)
    → (b ≡ true → NoFeed s)
    → (b ≡ false → NoFeed t)
    → NoFeed (if b then s else t)
NoFeed-if true s t h k = h refl
NoFeed-if false s t h k = k refl

NoFeed-take : (n : ℕ) (s : Bytes) → NoFeed s → NoFeed (take n s)
NoFeed-take zero s h = tt
NoFeed-take (suc n) [] h = tt
NoFeed-take (suc n) (b ∷ s) h = (h.0, NoFeed-take n s h.1)

NoFeed-drop : (n : ℕ) (s : Bytes) → NoFeed s → NoFeed (drop n s)
NoFeed-drop zero s h = h
NoFeed-drop (suc n) [] h = tt
NoFeed-drop (suc n) (b ∷ s) h = NoFeed-drop n s h.1

NoFeed-replicate : (n b : ℕ) → b ≢ 10 → NoFeed (replicate n b)
NoFeed-replicate zero b h = tt
NoFeed-replicate (suc n) b h = (h, NoFeed-replicate n b h)

NoFeed-digits : (s : Bytes) → AllDigits s → NoFeed s
NoFeed-digits [] h = tt
NoFeed-digits (c ∷ s) h = (ground (arith, h.0), NoFeed-digits s h.1)

NoFeed-pad_left : (s : Bytes) (w : ℕ) → NoFeed s → NoFeed (pad_left s w)
unfolding pad_left
NoFeed-pad_left s w h =
    NoFeed-if (leb w (length s)) _ _ (λ _. NoFeed-drop (length s - w) s h)
      (λ _. NoFeed-append _ s (NoFeed-replicate (w - length s) b'0' (omega arith)) h)

NoFeed-signed_decimal : (v : ℤ) → NoFeed (signed_decimal v)
unfolding signed_decimal
NoFeed-signed_decimal (pos n) = NoFeed-digits (decimal n) (decimal-AllDigits n)
NoFeed-signed_decimal (negsuc n) =
    (omega arith, NoFeed-digits (decimal (suc n)) (decimal-AllDigits (suc n)))

pub NoFeed-pad_left_num : (v : ℤ) (w : ℕ) → NoFeed (pad_left_num v w)
unfolding pad_left_num
NoFeed-pad_left_num v w = NoFeed-pad_left (signed_decimal v) w (NoFeed-signed_decimal v)

NoFeed-encode_rune : (r : ℕ) → r ≢ 10 → NoFeed (encode_rune r)
unfolding encode_rune
NoFeed-encode_rune r h = ground arith

NoFeed-keep_digits : (rs : List ℕ) → NoFeed (keep_digits rs)
unfolding keep_digits
NoFeed-keep_digits [] = tt
NoFeed-keep_digits (r ∷ rs) =
    NoFeed-if (is_ascii_digit r) _ _
      (λ digit.
        NoFeed-append (encode_rune r) _ (NoFeed-encode_rune r (ground arith))
          (NoFeed-keep_digits rs))
      (λ _. NoFeed-keep_digits rs)

pub NoFeed-pad_left_num_str : (s : Bytes) (w : ℕ) → NoFeed (pad_left_num_str s w)
unfolding pad_left_num_str strip_non_digits
NoFeed-pad_left_num_str s w =
    NoFeed-pad_left (keep_digits (runes s)) w (NoFeed-keep_digits (runes s))

pub NoFeed-blank : (w : ℕ) → NoFeed (blank w)
unfolding blank
NoFeed-blank w = NoFeed-replicate w b' ' (omega arith)

NoFeed-append_int : (n w : ℕ) → NoFeed (append_int n w)
unfolding append_int
NoFeed-append_int n w =
    NoFeed-append _ (decimal n) (NoFeed-replicate (w - length (decimal n)) b'0' (omega arith))
      (NoFeed-digits (decimal n) (decimal-AllDigits n))

pub NoFeed-format_date : (t : CivilTime) → NoFeed (format_date t)
unfolding format_date
NoFeed-format_date t =
    NoFeed-append _ _ (NoFeed-append_int t.day 2)
      (NoFeed-append _ _ (NoFeed-append_int t.month 2) (NoFeed-append_int t.year 4))

-- The letters that stand for the accented ones are no line feeds.
abbrev PlainLetters : List (List ℕ × ℕ) → Type 0
PlainLetters [] = Unit
PlainLetters ((_, plain) ∷ cases) = (plain ≢ 10) × PlainLetters cases

module _ (is_print : ℕ → Bool) (feed_hidden : is_print 10 ≡ false) where
  NoFeed-printed : (r : ℕ) → NoFeed (printed is_print r)
  unfolding printed
  NoFeed-printed r =
      NoFeed-if (is_print r) _ _ (λ prints. NoFeed-encode_rune _ (ground arith)) (λ _. tt)

  NoFeed-normalize_rune :
      (cases : List (List ℕ × ℕ)) (r : ℕ)
      → PlainLetters cases
      → NoFeed (normalize_rune is_print cases r)
  unfolding normalize_rune
  NoFeed-normalize_rune [] r h = NoFeed-printed r
  NoFeed-normalize_rune ((letters, plain) ∷ cases) r h =
      NoFeed-if (one_of r letters) _ _ (λ _. (h.0, tt)) (λ _. NoFeed-normalize_rune cases r h.1)

  NoFeed-normalize_runes : (rs : List ℕ) → NoFeed (normalize_runes is_print rs)
  unfolding normalize_runes
  NoFeed-normalize_runes [] = tt
  NoFeed-normalize_runes (r ∷ rs) =
      NoFeed-append (normalize_rune is_print accents r) _
        (NoFeed-normalize_rune accents r (omega arith)) (NoFeed-normalize_runes rs)

  pub NoFeed-pad_right_alpha : (s : Bytes) (w : ℕ) → NoFeed (pad_right_alpha is_print s w)
  unfolding pad_right_alpha pad_right normalize_alpha
  NoFeed-pad_right_alpha s w =
      let t = normalize_runes is_print (runes s) in
      let h = NoFeed-normalize_runes (runes s) in
      NoFeed-if (leb w (length t)) _ _ (λ _. NoFeed-take w t h)
        (λ _. NoFeed-append t _ h (NoFeed-replicate (w - length t) b' ' (omega arith)))
