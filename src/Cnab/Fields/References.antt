-- ===== src/Cnab/Fields/References.antt =====
-- A reference of digits, capitals and dashes is printed as it is and reads back (fields.go).
use payments_hub.Base.{
  ℕ, zero, suc, ◌-◌, ◌≤◌, ◌<◌, ◌≡◌, refl, ◌∙◌, ap, sym, Bool, true, false, ◌||◌, ◌&&◌, inl, inr,
  List, [], ◌∷◌, ◌++◌, arith, leb, ◌==◌, length, take, replicate, append-nil, Bool-cases,
}
use payments_hub.Base.Bytes.{Bytes, is_ascii_digit}
use payments_hub.Base.Utf8.{
  encode_rune, is_space, AllSolid, runes-solid, trim_space, trim_space-solid,
}
use payments_hub.Cnab.Fields.{
  one_of, accents, printed, normalize_rune, normalize_runes, normalize_alpha, pad_right,
  pad_right_alpha, trim_blanks,
}

abbrev is_reference_byte : ℕ → Bool
is_reference_byte c = is_ascii_digit c || leb b'A' c && leb c b'Z' || c == b'-'

abbrev pub IsReference : Bytes → Type 0
IsReference [] = Unit
IsReference (c ∷ s) = (is_reference_byte c ≡ true) × IsReference s

solid_of_reference : (s : Bytes) → IsReference s → AllSolid s
unfolding is_space
solid_of_reference [] h = tt
solid_of_reference (c ∷ s) h = (ground (arith, h.0), ground (arith, h.0), solid_of_reference s h.1)

trim_blanks-replicate : (k : ℕ) → trim_blanks (replicate k b' ') ≡ []
unfolding trim_blanks
trim_blanks-replicate zero = refl
trim_blanks-replicate (suc k) = rw (trim_blanks-replicate k)

trim_blanks-reference :
    (s : Bytes) (k : ℕ) → IsReference s → trim_blanks (s ++ replicate k b' ') ≡ s
unfolding trim_blanks
trim_blanks-reference [] k h = trim_blanks-replicate k
trim_blanks-reference (c ∷ []) k h = rw (trim_blanks-replicate k) (ground (arith, h.0))
trim_blanks-reference (c ∷ d ∷ s) k h = rw (trim_blanks-reference (d ∷ s) k h.1)

-- What `unicode.IsPrint` says of ASCII.
abbrev pub PrintsAscii : (ℕ → Bool) → Type 0
PrintsAscii is_print = (c : ℕ) → 32 ≤ c → c < 127 → is_print c ≡ true

-- All are above ASCII.
abbrev AllForeign : List ℕ → Type 0
AllForeign [] = Unit
AllForeign (c ∷ cs) = (0x80 ≤ c) × AllForeign cs

abbrev ForeignCases : List (List ℕ × ℕ) → Type 0
ForeignCases [] = Unit
ForeignCases ((letters, _) ∷ cases) = AllForeign letters × ForeignCases cases

one_of-ascii : (c : ℕ) (cs : List ℕ) → AllForeign cs → c < 0x80 → one_of c cs ≡ false
one_of-ascii c [] h small = refl
one_of-ascii c (d ∷ cs) h small = ground (arith, h.0, one_of-ascii c cs h.1 small)

normalize_rune-ascii :
    (is_print : ℕ → Bool) (cases : List (List ℕ × ℕ)) (c : ℕ)
    → ForeignCases cases
    → c < 0x80
    → normalize_rune is_print cases c ≡ printed is_print c
unfolding normalize_rune
normalize_rune-ascii is_print [] c h small = refl
normalize_rune-ascii is_print ((letters, plain) ∷ cases) c h small =
    rw (one_of-ascii c letters h.0 small) (normalize_rune-ascii is_print cases c h.1 small)

blanks_none : (k : ℕ) (s : Bytes) → k ≡ 0 → s ++ replicate k b' ' ≡ s
blanks_none zero s h = append-nil s
blanks_none (suc k) s h = absurd (omega arith)

take_all : (k : ℕ) (s : Bytes) → length s ≤ k → take k s ≡ s
take_all zero [] h = refl
take_all zero (c ∷ s) h = absurd (omega arith)
take_all (suc k) [] h = refl
take_all (suc k) (c ∷ s) h = ap (λ t. c ∷ t) (take_all k s (omega arith))

-- A text that fits is padded, never cut.
pub pad_right_short :
    (s : Bytes) (w : ℕ) → length s ≤ w → pad_right s w ≡ s ++ replicate (w - length s) b' '
unfolding pad_right
pad_right_short s w h = elim (Bool-cases (leb w (length s))) [
  | inl full ↦ rw full (take_all w s h ∙ sym (blanks_none (w - length s) s (ground arith)))
  | inr short ↦ rw short
]

module _ (is_print : ℕ → Bool) (prints : PrintsAscii is_print) where
  printed-reference : (c : ℕ) → is_reference_byte c ≡ true → printed is_print c ≡ c ∷ []
  unfolding printed encode_rune
  printed-reference c h = ground (arith, prints c, h)

  normalize_rune-reference :
      (c : ℕ) → is_reference_byte c ≡ true → normalize_rune is_print accents c ≡ c ∷ []
  normalize_rune-reference c h =
      normalize_rune-ascii is_print accents c (omega arith) (ground (arith, h))
      ∙ printed-reference c h

  normalize_runes-reference : (s : Bytes) → IsReference s → normalize_runes is_print s ≡ s
  unfolding normalize_runes
  normalize_runes-reference [] h = refl
  normalize_runes-reference (c ∷ s) h =
      rw (normalize_rune-reference c h.0, normalize_runes-reference s h.1)

  normalize_alpha-reference : (s : Bytes) → IsReference s → normalize_alpha is_print s ≡ s
  unfolding normalize_alpha
  normalize_alpha-reference s h =
      rw (runes-solid s (solid_of_reference s h)) (normalize_runes-reference s h)

  -- A reference that fits its field survives printing, and trimming of what is read.
  pub reference_reads_back :
      (s : Bytes) (w : ℕ)
      → IsReference s
      → length s ≤ w
      → trim_space (trim_blanks (pad_right_alpha is_print s w)) ≡ s
  unfolding pad_right_alpha
  reference_reads_back s w h fits =
      rw
        (
          normalize_alpha-reference s h,
          pad_right_short s w fits,
          trim_blanks-reference s (w - length s) h,
        )
        (trim_space-solid s (solid_of_reference s h))
