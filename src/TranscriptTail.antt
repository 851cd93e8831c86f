-- ===== src/TranscriptTail.antt =====
-- The tail of a transcript, src/transcript_tail.rs: how its texts are cut.
pub mod Cut
pub mod Events
pub mod Written
pub mod Index
pub mod Codex
mod Tests
use ostk_cache.Prelude.{
  ℕ, zero, suc, ◌+◌, ◌/◌, Bool, true, false, List, [], ◌∷◌, ◌++◌, Option, none, some, Text, leb,
  ltb, if◌then◌else◌, length, take,
}
use ostk_cache.Prelude.Chars.{chars, concat}
use ostk_cache.Prelude.Utf8.{all_blank, trim_end}

-- `…`
abbrev pub ellipsis : Text
ellipsis = 0xe2 ∷ 0x80 ∷ 0xa6 ∷ []

unfoldable pub truncate_chars : Text → ℕ → Text
unfolding chars concat
truncate_chars s max =
    if leb (length (chars s)) max then s else concat (take max (chars s)) ++ ellipsis

-- `rfind(char::is_whitespace)`: the bytes before the last blank character.
unfoldable pub last_blank : List Text → Option ℕ
unfolding all_blank
last_blank [] = none
last_blank (g ∷ gs) = elim (last_blank gs) [
  | some i ↦ some (length g + i)
  | none ↦ if all_blank g then some 0 else none
]

-- The cut, where the last blank is in the second half of the window.
unfoldable pub cut_at : Text → ℕ → Option ℕ → ℕ
cut_at prefix max none = length prefix
cut_at prefix max (some i) = if ltb (max / 2) i then i else length prefix

unfoldable pub truncate_at_word_boundary : Text → ℕ → Text
unfolding chars concat last_blank cut_at trim_end
truncate_at_word_boundary s max =
    if leb (length (chars s)) max
    then s
    else let prefix = concat (take max (chars s)) in
      trim_end (take (cut_at prefix max (last_blank (chars prefix))) prefix) ++ ellipsis
