-- ===== src/Base/Utf8.antt =====
-- Go's view of a string as runes: `range`, `WriteRune`, `unicode.IsSpace`, `strings.TrimSpace`.
use payments_hub.Base.{
  ℕ, zero, suc, ◌+◌, ◌-◌, ◌*◌, ◌/◌, ◌%◌, ◌<◌, ◌≡◌, refl, ap, ◌∙◌, inl, inr, Bool, false, Bool-cases,
  ◌&&◌, ◌||◌, List, [], ◌∷◌, ◌++◌, map, arith, ltb, leb, ◌==◌, if◌then◌else◌, take,
}
use Prim.Native.Char.{code}
use Prim.Native.String.{String}
use payments_hub.Base.Bytes.{Bytes}

-- The rune that stands for a byte that begins no valid encoding.
abbrev rune_error : ℕ × ℕ
rune_error = (0xFFFD, 1)

abbrev within : ℕ → ℕ → ℕ → Bool
within lo hi c = leb lo c && leb c hi

-- A continuation byte.
abbrev follows : ℕ → Bool
follows = within 0x80 0xBF

-- The second byte of three: no surrogates, no encoding that is longer than it need be.
abbrev second3 : ℕ → ℕ → Bool
second3 b0 b1 =
    if b0 == 0xE0
    then within 0xA0 0xBF b1
    else if b0 == 0xED
    then within 0x80 0x9F b1
    else follows b1

abbrev second4 : ℕ → ℕ → Bool
second4 b0 b1 =
    if b0 == 0xF0
    then within 0x90 0xBF b1
    else if b0 == 0xF4
    then within 0x80 0x8F b1
    else follows b1

-- A rune of two, three or four bytes and its width, from the first byte and those behind it.
long_rune : ℕ → Bytes → ℕ × ℕ
long_rune b0 [] = rune_error
long_rune b0 (b1 ∷ []) =
    if within 0xC2 0xDF b0 && follows b1 then ((b0 - 0xC0) * 64 + (b1 - 0x80), 2) else rune_error
long_rune b0 (b1 ∷ b2 ∷ []) =
    if within 0xC2 0xDF b0 && follows b1
    then ((b0 - 0xC0) * 64 + (b1 - 0x80), 2)
    else if within 0xE0 0xEF b0 && second3 b0 b1 && follows b2
    then ((b0 - 0xE0) * 4096 + (b1 - 0x80) * 64 + (b2 - 0x80), 3)
    else rune_error
long_rune b0 (b1 ∷ b2 ∷ b3 ∷ s) =
    if within 0xC2 0xDF b0 && follows b1
    then ((b0 - 0xC0) * 64 + (b1 - 0x80), 2)
    else if within 0xE0 0xEF b0 && second3 b0 b1 && follows b2
    then ((b0 - 0xE0) * 4096 + (b1 - 0x80) * 64 + (b2 - 0x80), 3)
    else if within 0xF0 0xF4 b0 && second4 b0 b1 && follows b2 && follows b3
    then ((b0 - 0xF0) * 262144 + (b1 - 0x80) * 4096 + (b2 - 0x80) * 64 + (b3 - 0x80), 4)
    else rune_error

first_rune : ℕ → Bytes → ℕ × ℕ
unfolding long_rune
first_rune b0 s = if ltb b0 0x80 then (b0, 1) else long_rune b0 s

-- The runes with the bytes that each was read from; the number counts the bytes that belong to
-- the rune before.
decode_from : ℕ → Bytes → List (ℕ × Bytes)
decode_from zero [] = []
decode_from zero (b ∷ s) =
    let (r, w) = first_rune b s in (r, take w (b ∷ s)) ∷ decode_from (w - 1) s
decode_from (suc k) [] = []
decode_from (suc k) (b ∷ s) = decode_from k s

unfoldable pub decode_runes : Bytes → List (ℕ × Bytes)
unfolding decode_from first_rune
decode_runes s = decode_from 0 s

abbrev rune_of : ℕ × Bytes → ℕ
rune_of (r, _) = r

-- `for _, r := range s`
unfoldable pub runes : Bytes → List ℕ
unfolding decode_runes
runes s = map rune_of (decode_runes s)

-- `WriteRune`
unfoldable pub encode_rune : ℕ → Bytes
encode_rune r =
    if ltb r 0x80
    then r ∷ []
    else if ltb r 0x800
    then (0xC0 + r / 64) ∷ (0x80 + r % 64) ∷ []
    else if within 0xD800 0xDFFF r || ltb 0x10FFFF r
    then 0xEF ∷ 0xBF ∷ 0xBD ∷ []
    else if ltb r 0x10000
    then (0xE0 + r / 4096) ∷ (0x80 + r / 64 % 64) ∷ (0x80 + r % 64) ∷ []
    else (0xF0 + r / 262144) ∷ (0x80 + r / 4096 % 64) ∷ (0x80 + r / 64 % 64) ∷ (0x80 + r % 64) ∷ []

-- `unicode.IsSpace`
unfoldable pub is_space : ℕ → Bool
is_space r =
    within 9 13 r
    || r == 32
    || r == 0x85
    || r == 0xA0
    || r == 0x1680
    || within 0x2000 0x200A r
    || within 0x2028 0x2029 r
    || r == 0x202F
    || r == 0x205F
    || r == 0x3000

trim_front : List (ℕ × Bytes) → List (ℕ × Bytes)
trim_front [] = []
trim_front ((r, b) ∷ cs) = if is_space r then trim_front cs else (r, b) ∷ cs

-- A rune goes if it is white space and nothing is left behind it.
keep_rune : ℕ → Bytes → List (ℕ × Bytes) → List (ℕ × Bytes)
keep_rune r b [] = if is_space r then [] else (r, b) ∷ []
keep_rune r b (c ∷ cs) = (r, b) ∷ c ∷ cs

trim_back : List (ℕ × Bytes) → List (ℕ × Bytes)
trim_back [] = []
trim_back ((r, b) ∷ cs) = keep_rune r b (trim_back cs)

bytes_of : List (ℕ × Bytes) → Bytes
bytes_of [] = []
bytes_of ((_, b) ∷ cs) = b ++ bytes_of cs

-- `strings.TrimSpace`
unfoldable pub trim_space : Bytes → Bytes
unfolding decode_runes trim_front trim_back keep_rune bytes_of is_space
trim_space s = bytes_of (trim_back (trim_front (decode_runes s)))

-- Bytes of ASCII.
abbrev pub IsAscii : Bytes → Type 0
IsAscii [] = Unit
IsAscii (b ∷ s) = (b < 0x80) × IsAscii s

abbrev own_rune : ℕ → ℕ × Bytes
own_rune b = (b, b ∷ [])

pub decode_runes-ascii : (s : Bytes) → IsAscii s → decode_runes s ≡ map own_rune s
unfolding decode_runes
decode_runes-ascii [] h = refl
decode_runes-ascii (b ∷ s) h = ground (arith, decode_runes-ascii s h.1)

rune_of-own_rune : (s : Bytes) → map rune_of (map own_rune s) ≡ s
rune_of-own_rune [] = refl
rune_of-own_rune (b ∷ s) = ap (λ t. b ∷ t) (rune_of-own_rune s)

-- In ASCII every byte is a rune.
pub runes-ascii : (s : Bytes) → IsAscii s → runes s ≡ s
unfolding runes
runes-ascii s h = ap (map rune_of) (decode_runes-ascii s h) ∙ rune_of-own_rune s

-- Trimming of the single bytes, which is what `TrimSpace` does to ASCII.
unfoldable pub drop_spaces : Bytes → Bytes
drop_spaces [] = []
drop_spaces (b ∷ s) = if is_space b then drop_spaces s else b ∷ s

keep_byte : ℕ → Bytes → Bytes
keep_byte b [] = if is_space b then [] else b ∷ []
keep_byte b (c ∷ s) = b ∷ c ∷ s

unfoldable pub cut_spaces : Bytes → Bytes
unfolding keep_byte
cut_spaces [] = []
cut_spaces (b ∷ s) = keep_byte b (cut_spaces s)

bytes_of-own_rune : (s : Bytes) → bytes_of (map own_rune s) ≡ s
unfolding bytes_of
bytes_of-own_rune [] = refl
bytes_of-own_rune (b ∷ s) = ap (λ t. b ∷ t) (bytes_of-own_rune s)

trim_front-own_rune : (s : Bytes) → trim_front (map own_rune s) ≡ map own_rune (drop_spaces s)
unfolding trim_front drop_spaces
trim_front-own_rune [] = refl
trim_front-own_rune (b ∷ s) = elim (Bool-cases (is_space b)) [
  | inl blank ↦ rw blank (trim_front-own_rune s)
  | inr solid ↦ rw solid
]

keep_rune-own_rune :
    (b : ℕ) (s : Bytes) → keep_rune b (b ∷ []) (map own_rune s) ≡ map own_rune (keep_byte b s)
unfolding keep_rune keep_byte
keep_rune-own_rune b [] = ground arith
keep_rune-own_rune b (c ∷ s) = refl

trim_back-own_rune : (s : Bytes) → trim_back (map own_rune s) ≡ map own_rune (cut_spaces s)
unfolding trim_back cut_spaces
trim_back-own_rune [] = refl
trim_back-own_rune (b ∷ s) =
    ap (keep_rune b (b ∷ [])) (trim_back-own_rune s) ∙ keep_rune-own_rune b (cut_spaces s)

pub trim_space-ascii : (s : Bytes) → IsAscii s → trim_space s ≡ cut_spaces (drop_spaces s)
unfolding trim_space
trim_space-ascii s h =
    ap (λ t. bytes_of (trim_back (trim_front t))) (decode_runes-ascii s h)
    ∙ ap (λ t. bytes_of (trim_back t)) (trim_front-own_rune s)
    ∙ ap bytes_of (trim_back-own_rune (drop_spaces s))
    ∙ bytes_of-own_rune (cut_spaces (drop_spaces s))

-- The bytes of a literal.
unfoldable pub utf8 : String → Bytes
unfolding encode_rune
utf8 String.[] = []
utf8 (String.◌∷◌ c s) = encode_rune (code c) ++ utf8 s

-- ASCII with no white space.
abbrev pub AllSolid : Bytes → Type 0
AllSolid [] = Unit
AllSolid (c ∷ s) = (c < 0x80) × (is_space c ≡ false) × AllSolid s

IsAscii-of_solid : (s : Bytes) → AllSolid s → IsAscii s
IsAscii-of_solid [] h = tt
IsAscii-of_solid (c ∷ s) h = (h.0, IsAscii-of_solid s h.2)

drop_spaces-solid : (s : Bytes) → AllSolid s → drop_spaces s ≡ s
unfolding drop_spaces
drop_spaces-solid [] h = refl
drop_spaces-solid (c ∷ s) h = rw (h.1)

cut_spaces-solid : (s : Bytes) → AllSolid s → cut_spaces s ≡ s
unfolding cut_spaces
cut_spaces-solid [] h = refl
cut_spaces-solid (c ∷ []) h = rw (h.1)
cut_spaces-solid (c ∷ d ∷ s) h = rw (cut_spaces-solid (d ∷ s) h.2)

pub runes-solid : (s : Bytes) → AllSolid s → runes s ≡ s
runes-solid s h = runes-ascii s (IsAscii-of_solid s h)

pub trim_space-solid : (s : Bytes) → AllSolid s → trim_space s ≡ s
trim_space-solid s h =
    trim_space-ascii s (IsAscii-of_solid s h)
    ∙ ap cut_spaces (drop_spaces-solid s h)
    ∙ cut_spaces-solid s h
