-- ===== src/TranscriptTail/Written.antt =====
-- A transcript as its writer ends the lines, and how it is read again.
use ostk_cache.Prelude.{
  ◌≡◌, refl, ap, sym, ◌∙◌, true, false, List, [], ◌∷◌, ◌++◌, append_assoc, some, Text, ◌==◌, length,
  take, drop, get_elem?, All,
}
use ostk_cache.Prelude.Lines.{lines, split_inclusive, strip_eol}
use ostk_cache.Prelude.Utf8.{valid_utf8}
use ostk_cache.TranscriptTail.Events.{valid_only, read_lines}

-- Lines as a writer of one value to a line ends them.
unfoldable pub unlines : List Text → Text
unlines [] = []
unlines (l ∷ ls) = l ++ (10 ∷ unlines ls)

-- A line without a newline, and with no carriage return at its end.
abbrev pub IsLine : Text → Type 0
IsLine [] = Unit
IsLine (c ∷ []) = ((c == 10) ≡ false) × ((c == 13) ≡ false)
IsLine (c ∷ d ∷ s) = ((c == 10) ≡ false) × IsLine (d ∷ s)

split_line :
    (l : Text) (rest : Text)
    → IsLine l
    → split_inclusive (l ++ (10 ∷ rest)) ≡ (l ++ 10 ∷ []) ∷ split_inclusive rest
unfolding split_inclusive
split_line [] rest h = refl
split_line (c ∷ []) rest h = rw h.0 refl
split_line (c ∷ d ∷ l) rest h = rw (split_line (d ∷ l) rest h.1, h.0) refl

strip_line : (l : Text) → IsLine l → strip_eol (l ++ 10 ∷ []) ≡ l
unfolding strip_eol
strip_line [] h = refl
strip_line (c ∷ []) h = rw h.1 refl
strip_line (c ∷ d ∷ []) h = ap (◌∷◌ c) (strip_line (d ∷ []) h.1)
strip_line (c ∷ d ∷ e ∷ l) h = ap (◌∷◌ c) (strip_line (d ∷ e ∷ l) h.1)

-- The lines that were written are read.
pub lines-unlines : (ls : List Text) → All IsLine ls → lines (unlines ls) ≡ ls
unfolding lines unlines split_inclusive
lines-unlines [] h = refl
lines-unlines (l ∷ ls) h =
    rw (split_line l (unlines ls) h.0, strip_line l h.0, lines-unlines ls h.1) refl

valid-only_lem : (ls : List Text) → All (λ l. valid_utf8 l ≡ true) ls → valid_only ls ≡ ls
unfolding valid_only
valid-only_lem [] h = refl
valid-only_lem (l ∷ ls) h = rw (h.0, valid-only_lem ls h.1) refl

pub read_lines-unlines :
    (ls : List Text)
    → All IsLine ls
    → All (λ l. valid_utf8 l ≡ true) ls
    → read_lines (unlines ls) ≡ ls
unfolding read_lines
read_lines-unlines ls h v = ap valid_only (lines-unlines ls h) ∙ valid-only_lem ls v

pub unlines-append : (ls ms : List Text) → unlines (ls ++ ms) ≡ unlines ls ++ unlines ms
unfolding unlines
unlines-append [] ms = refl
unlines-append (l ∷ ls) ms =
    ap (λ t. l ++ (10 ∷ t)) (unlines-append ls ms)
    ∙ sym (append_assoc l (10 ∷ unlines ls) (unlines ms))

pub drop-length : (s t : Text) → drop (length s) (s ++ t) ≡ t
drop-length [] t = refl
drop-length (c ∷ s) t = drop-length s t

pub take-length : (s t : Text) → take (length s) (s ++ t) ≡ s
take-length [] t = refl
take-length (c ∷ s) t = ap (◌∷◌ c) (take-length s t)

pub get_elem?-length :
    (ls ms : List Text) (l : Text) → get_elem? (ls ++ l ∷ ms) (length ls) ≡ some l
get_elem?-length [] ms l = refl
get_elem?-length (k ∷ ls) ms l = get_elem?-length ls ms l
