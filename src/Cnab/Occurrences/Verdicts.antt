-- ===== src/Cnab/Occurrences/Verdicts.antt =====
-- Which occurrence fields the table accepts (occurrences.go).
use payments_hub.Base.{
  ◌%◌, ◌<◌, ◌≡◌, ◌≢◌, refl, ap, inl, inr, Bool, true, false, not, ◌&&◌, ◌||◌, none, some, List, [],
  ◌∷◌, arith, length, ltb, ◌==◌, Option-cases,
}
use payments_hub.Base.Bytes.{Bytes, codes, same, eq_of_same}
use payments_hub.Base.Utf8.{trim_space}
use payments_hub.Cnab.Occurrences.{
  is_ok, Occurrence, row, sispag_occurrences, find_code, find_occurrence, refusal, or_else,
  scan_pairs, scanned, lookup_code, lookup_occurrence,
}

accepted_code : Bytes → Bool
accepted_code c = same c (codes "00") || same c (codes "BD")

-- What holds of each row of the table: two bytes, and only two of them accept.
sound_row : Occurrence → Bool
unfolding accepted_code
sound_row o =
    (length o.code == 2)
    && (is_ok o.verdict && accepted_code o.code
        || not (is_ok o.verdict) && not (accepted_code o.code))

all_rows : (Occurrence → Bool) → List Occurrence → Bool
all_rows p [] = true
all_rows p (o ∷ os) = p o && all_rows p os

table_sound : all_rows sound_row sispag_occurrences ≡ true
unfolding all_rows sound_row sispag_occurrences row
table_sound = refl

find_code-row :
    (p : Occurrence → Bool) (c : Bytes) (os : List Occurrence) (o : Occurrence)
    → all_rows p os ≡ true
    → find_code c os ≡ some o
    → (p o ≡ true) × (o.code ≡ c)
unfolding all_rows find_code
find_code-row p c [] o h e = cc
find_code-row p c (x ∷ os) o h e = ground (arith, eq_of_same x.code c, find_code-row p c os o)

module _ (c : Bytes) (o : Occurrence) (e : find_occurrence c ≡ some o) where
  found_row : (sound_row o ≡ true) × (o.code ≡ c)
  unfolding find_occurrence
  found_row = find_code-row sound_row c sispag_occurrences o table_sound e

  found_verdict : (is_ok o.verdict ≡ accepted_code c) × (length c ≡ 2)
  unfolding sound_row
  found_verdict =
      let (sound, code) = found_row in
      ground (arith, ap accepted_code code, ap (λ (s : Bytes). length s) code)

accepted_found : (c : Bytes) → accepted_code c ≡ true → find_occurrence c ≢ none
unfolding accepted_code
accepted_found c h =
    ground (arith, eq_of_same c (codes "00"), eq_of_same c (codes "BD"), known_00, known_bd)
  where
    known_00 : find_occurrence (codes "00") ≢ none
    known_00 = unfold find_occurrence in cc

    known_bd : find_occurrence (codes "BD") ≢ none
    known_bd = unfold find_occurrence in cc

-- A code of the table that is not one of the two that accept.
refused : Bytes → Bool
unfolding accepted_code
refused c = elim (find_occurrence c) [ none ↦ false | some _ ↦ not (accepted_code c) ]

any_refused : Bytes → Bool
any_refused (a ∷ b ∷ s) = refused (a ∷ b ∷ []) || any_refused s
any_refused _ = false

-- The fields that mean that the bank accepts: none, one of the two codes, or an even number of
-- bytes, more than two, with no refused code among the pairs.
pub accepts : Bytes → Bool
accepts c =
    length c == 0
    || accepted_code c
    || (ltb 2 (length c) && length c % 2 == 0 && not (any_refused c))

refusal-some :
    (c : Bytes) (o : Occurrence) → refusal (find_occurrence c) ≡ some o → is_ok o.verdict ≡ false
unfolding refusal
refusal-some c o e = ground arith

refusal_iff :
    (c : Bytes) → refused c ≡ elim (refusal (find_occurrence c)) [ none ↦ false | some _ ↦ true ]
unfolding refusal refused find_occurrence
refusal_iff c = elim (Option-cases (find_occurrence c)) [
  | inl unknown ↦ rw unknown
  | inr (o, e) ↦ rw e (ground (arith, found_verdict c o e))
]

scan_pairs-some : (s : Bytes) (o : Occurrence) → scan_pairs s ≡ some o → is_ok o.verdict ≡ false
unfolding scan_pairs or_else
scan_pairs-some [] o e = cc
scan_pairs-some (a ∷ []) o e = cc
scan_pairs-some (a ∷ b ∷ s) o e = ground (arith, refusal-some (a ∷ b ∷ []) o, scan_pairs-some s o)

scan_pairs_iff : (s : Bytes) → any_refused s ≡ elim (scan_pairs s) [ none ↦ false | some _ ↦ true ]
unfolding scan_pairs or_else any_refused
scan_pairs_iff [] = refl
scan_pairs_iff (a ∷ []) = refl
scan_pairs_iff (a ∷ b ∷ s) = ground (arith, refusal_iff (a ∷ b ∷ []), scan_pairs_iff s)

scanned_verdict : (c : Bytes) → is_ok (scanned c (scan_pairs c)).verdict ≡ not (any_refused c)
unfolding scanned
scanned_verdict c = elim (Option-cases (scan_pairs c)) [
  | inl clean ↦ rw (scan_pairs_iff c, clean)
  | inr (o, e) ↦ rw (scan_pairs_iff c, e) (scan_pairs-some c o e)
]

lookup_code_verdict : (c : Bytes) → is_ok (lookup_code c).verdict ≡ accepts c
unfolding lookup_code accepts
lookup_code_verdict c = elim (Option-cases (find_occurrence c)) [
  | inl unknown ↦ rw unknown (ground (arith, accepted_found c, scanned_verdict c, unknown))
  | inr (o, e) ↦ rw e (ground (arith, found_verdict c o e))
]

-- The verdict on a field is OK exactly where the field, trimmed of white space, is empty, is "00"
-- or "BD", or has an even number of bytes, more than two, and no pair of them is a code of the
-- table other than those two.
pub verdict_exact : (raw : Bytes) → is_ok (lookup_occurrence raw).verdict ≡ accepts (trim_space raw)
unfolding lookup_occurrence
verdict_exact raw = lookup_code_verdict (trim_space raw)

-- No pair of the bytes is a code of the table.
unfoldable pub all_unknown : Bytes → Bool
unfolding find_occurrence
all_unknown (a ∷ b ∷ s) =
    elim (find_occurrence (a ∷ b ∷ [])) [ none ↦ true | some _ ↦ false ] && all_unknown s
all_unknown _ = true

unknown-not-refused : (s : Bytes) → all_unknown s ≡ true → any_refused s ≡ false
unfolding all_unknown any_refused refused find_occurrence
unknown-not-refused [] h = refl
unknown-not-refused (a ∷ []) h = refl
unknown-not-refused (a ∷ b ∷ s) h = ground (arith, unknown-not-refused s)

-- An even number of bytes, four or more, in which no pair is a known code is reported as OK: the
-- promise to refuse unknown codes does not hold for fields of several codes.
pub unknown_codes_accepted :
    (raw : Bytes)
    → 2 < length (trim_space raw)
    → length (trim_space raw) % 2 ≡ 0
    → all_unknown (trim_space raw) ≡ true
    → is_ok (lookup_occurrence raw).verdict ≡ true
unfolding accepts
unknown_codes_accepted raw long even h =
    rw (verdict_exact raw) (ground (arith, unknown-not-refused (trim_space raw) h))
