-- ===== src/Cnab/Decoder/Split.antt =====
-- Lines that end in CRLF are split into themselves (decoder.go).
use payments_hub.Base.{◌≡◌, refl, ◌∙◌, ap, sym, List, [], ◌∷◌, ◌++◌, arith, append_assoc}
use payments_hub.Base.Bytes.{Bytes}
use payments_hub.Base.Result.{ok, ◌>>=◌, bind_ext, bind_assoc, bind-ok}
use payments_hub.Cnab.Fields.Clean.{NoFeed}
use payments_hub.Cnab.Encoder.{crlf}
use payments_hub.Cnab.Decoder.{replace_crlf, split_lines, decode_lines, decode_line, Return, decode}

-- The bytes of a file with these lines.
abbrev pub join : List Bytes → Bytes
join [] = []
join (l ∷ ls) = l ++ (crlf ++ join ls)

abbrev pub AllNoFeed : List Bytes → Type 0
AllNoFeed [] = Unit
AllNoFeed (l ∷ ls) = NoFeed l × AllNoFeed ls

replace_crlf-feed : (s : Bytes) → replace_crlf (10 ∷ s) ≡ 10 ∷ replace_crlf s
unfolding replace_crlf
replace_crlf-feed [] = refl
replace_crlf-feed (b ∷ s) = refl

replace_crlf-line :
    (l s : Bytes) → NoFeed l → replace_crlf (l ++ (crlf ++ s)) ≡ l ++ 10 ∷ replace_crlf s
unfolding replace_crlf
replace_crlf-line [] s h = replace_crlf-feed s
replace_crlf-line (a ∷ []) s h = ground (arith, replace_crlf-feed s)
replace_crlf-line (a ∷ b ∷ l) s h = ground (arith, h.1.0, replace_crlf-line (b ∷ l) s h.1)

split_lines-line : (l s : Bytes) → NoFeed l → split_lines (l ++ 10 ∷ s) ≡ l ∷ split_lines s
unfolding split_lines
split_lines-line [] s h = refl
split_lines-line (b ∷ l) s h = ground (arith, h.0, split_lines-line l s h.1)

pub split-join :
    (ls : List Bytes) → AllNoFeed ls → split_lines (replace_crlf (join ls)) ≡ ls ++ ([] ∷ [])
unfolding replace_crlf
split-join [] h = unfold split_lines in refl
split-join (l ∷ ls) h =
    rw (replace_crlf-line l (join ls) h.0, split_lines-line l (replace_crlf (join ls)) h.0)
      (ap (λ t. l ∷ t) (split-join ls h.1))

pub decode_lines-append :
    (ls ms : List Bytes) (ret : Return)
    → decode_lines (ls ++ ms) ret ≡ (decode_lines ls ret >>= decode_lines ms)
unfolding decode_lines
decode_lines-append [] ms ret = refl
decode_lines-append (l ∷ ls) ms ret =
    bind_ext (decode_line l ret) _ _ (decode_lines-append ls ms)
    ∙ sym (bind_assoc (decode_line l ret) (decode_lines ls) (decode_lines ms))

-- The empty piece behind the last line feed adds nothing.
decode_lines-empty : (ret : Return) → decode_lines ([] ∷ []) ret ≡ ok ret
unfolding decode_lines decode_line
decode_lines-empty ret = refl

abbrev pub no_return : Return
no_return = record { file_header = []; lines = []; total_lines = 0 }

pub decode-join : (ls : List Bytes) → AllNoFeed ls → decode (join ls) ≡ decode_lines ls no_return
unfolding decode
decode-join ls h = rw (split-join ls h) (
    decode_lines-append ls ([] ∷ []) no_return
    ∙ bind_ext (decode_lines ls no_return) _ _ decode_lines-empty
    ∙ bind-ok (decode_lines ls no_return))

pub decode_lines-concat :
    (ls : List Bytes) (l : Bytes) (ret : Return)
    → decode_lines (ls ++ l ∷ []) ret ≡ (decode_lines ls ret >>= decode_line l)
unfolding decode_lines
decode_lines-concat ls l ret =
    decode_lines-append ls (l ∷ []) ret
    ∙ bind_ext (decode_lines ls ret) _ _ (λ r. bind-ok (decode_line l r))

pub join-concat : (ls : List Bytes) (l : Bytes) → join (ls ++ l ∷ []) ≡ join ls ++ (l ++ crlf)
join-concat [] l = refl
join-concat (k ∷ ls) l = rw (join-concat ls l, append_assoc k (crlf ++ join ls) (l ++ crlf))

pub AllNoFeed-concat :
    (ls : List Bytes) (l : Bytes) → AllNoFeed ls → NoFeed l → AllNoFeed (ls ++ l ∷ [])
AllNoFeed-concat [] l h k = (k, tt)
AllNoFeed-concat (m ∷ ls) l h k = (h.0, AllNoFeed-concat ls l h.1 k)
