-- ===== src/Prelude/Lines.antt =====
-- `str::split_inclusive`, `lines`, `strip_prefix` and `trim_end_matches`, on bytes.
use ostk_cache.Prelude.{
  ℕ, List, [], ◌∷◌, Option, none, some, Text, starts_with, ◌==◌, if◌then◌else◌, length, drop, map,
}

-- `split_inclusive('\n')`
unfoldable pub split_inclusive : Text → List Text
split_inclusive [] = []
split_inclusive (x ∷ xs) =
    let rest = split_inclusive xs in
    if x == 10
    then (10 ∷ []) ∷ rest
    else elim rest [ [] ↦ (x ∷ []) ∷ [] | line ∷ lines ↦ (x ∷ line) ∷ lines ]

unfoldable pub strip_prefix : Text → Text → Option Text
strip_prefix p s = if starts_with p s then some (drop (length p) s) else none

-- A line without its `\n` or `\r\n`.
unfoldable pub strip_eol : Text → Text
strip_eol [] = []
strip_eol (c ∷ []) = if c == 10 then [] else c ∷ []
strip_eol (c ∷ d ∷ []) = if d == 10 then (if c == 13 then [] else c ∷ []) else c ∷ d ∷ []
strip_eol (c ∷ d ∷ e ∷ s) = c ∷ strip_eol (d ∷ e ∷ s)

unfoldable pub lines : Text → List Text
unfolding split_inclusive strip_eol
lines s = map strip_eol (split_inclusive s)

-- `trim_end_matches` with one byte.
unfoldable pub trim_end_byte : ℕ → Text → Text
trim_end_byte b [] = []
trim_end_byte b (c ∷ s) = elim (trim_end_byte b s) [
  | [] ↦ if c == b then [] else c ∷ []
  | d ∷ rest ↦ c ∷ d ∷ rest
]
