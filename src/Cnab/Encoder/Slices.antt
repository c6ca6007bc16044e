-- ===== src/Cnab/Encoder/Slices.antt =====
-- A field of a line is found at its place (encoder.go).
use payments_hub.Base.{
  ℕ, zero, suc, ◌+◌, ◌-◌, ◌≡◌, refl, ◌∙◌, ap, some, List, [], ◌∷◌, ◌++◌, arith, length, get_elem?,
  get_or, take, drop,
}
use native.Mathlib.Nat.{suc-add, zero-add, add-zero}
use payments_hub.Base.Bytes.{Bytes}
use payments_hub.Cnab.Fields.{slice}
use payments_hub.Cnab.Encoder.{concat}
use payments_hub.Cnab.Encoder.Lines.{total}

drop-append : (f s : Bytes) (n : ℕ) → drop (length f + n) (f ++ s) ≡ drop n s
drop-append [] s n = ground arith
drop-append (c ∷ f) s n = rw suc-add (drop-append f s n)

take-append : (f s : Bytes) → take (length f) (f ++ s) ≡ f
take-append [] s = refl
take-append (c ∷ f) s = ap (λ t. c ∷ t) (take-append f s)

drop_before :
    (k : ℕ) (fs : List Bytes) (f : Bytes)
    → get_elem? fs k ≡ some f
    → (rest : Bytes) × (drop (total (take k fs)) (concat fs) ≡ f ++ rest)
drop_before k [] f e = cc
drop_before zero (g ∷ fs) f e = (concat fs, ground (arith, e))
drop_before (suc k) (g ∷ fs) f e =
    let (rest, at) = drop_before k fs f e in
    (rest, drop-append g (concat fs) (total (take k fs)) ∙ at)

-- The field number `k`, cut out of the line from the total length of those before it.
pub slice-concat :
    (k : ℕ) (fs : List Bytes) (f : Bytes) (start stop : ℕ)
    → get_elem? fs k ≡ some f
    → total (take k fs) ≡ start
    → stop ≡ start + length f
    → slice (concat fs) start stop ≡ f
slice-concat k fs f start stop e at upto =
    let (rest, found) = drop_before k fs f e in
    let wide : stop - start ≡ length f = omega arith in rw (wide, ← at, found) (take-append f rest)

get_or-drop : (n : ℕ) (s : Bytes) (d c : ℕ) (rest : Bytes) → drop n s ≡ c ∷ rest → get_or s n d ≡ c
get_or-drop zero [] d c rest e = cc
get_or-drop (suc n) [] d c rest e = cc
get_or-drop zero (b ∷ s) d c rest e = ground (arith, e)
get_or-drop (suc n) (b ∷ s) d c rest e = get_or-drop n s d c rest e

-- A field of one byte, read by its index.
pub get_or-concat :
    (k : ℕ) (fs : List Bytes) (c : ℕ) (start : ℕ)
    → get_elem? fs k ≡ some (c ∷ [])
    → total (take k fs) ≡ start
    → get_or (concat fs) start 0 ≡ c
get_or-concat k fs c start e at =
    let (rest, found) = drop_before k fs (c ∷ []) e in
    rw (← at) (get_or-drop (total (take k fs)) (concat fs) 0 c rest found)

pub drop-concat :
    (k : ℕ) (fs : List Bytes) → drop (total (take k fs)) (concat fs) ≡ concat (drop k fs)
drop-concat zero fs = refl
drop-concat (suc k) [] = refl
drop-concat (suc k) (g ∷ fs) = drop-append g (concat fs) (total (take k fs)) ∙ drop-concat k fs

pub drop-add : (n m : ℕ) (s : Bytes) → drop (n + m) s ≡ drop m (drop n s)
drop-add zero m s = rw zero-add
drop-add (suc n) zero [] = rw add-zero
drop-add (suc n) (suc m) [] = rw suc-add
drop-add (suc n) m (c ∷ s) = rw suc-add (drop-add n m s)
