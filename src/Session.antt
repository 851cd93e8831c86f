-- ===== src/Session.antt =====
-- What src/lib.rs does with the turns of a session: the two parts of a prompt.
pub mod Match
pub mod Partition
pub mod Pages
pub mod Origin
pub mod Account
mod Tests
use ostk_cache.Prelude.{
  ℕ, ◌+◌, ◌-◌, ◌/◌, ◌==◌, ltb, Bool, true, false, ◌&&◌, ◌||◌, not, List, [], ◌∷◌, ◌++◌, Option,
  none, some, Text, eqb, length, take, drop, if◌then◌else◌,
}
use ostk_cache.Prelude.Chars.{chars, is_continuation}

-- Whether a character ends before the byte: a slice that ends elsewhere panics.
unfoldable pub starts_char : Text → Bool
unfolding is_continuation
starts_char [] = true
starts_char (c ∷ s) = not (is_continuation c)

unfoldable pub is_char_boundary : Text → ℕ → Bool
unfolding starts_char
is_char_boundary s n = n == 0 || starts_char (drop n s)

-- `rfind('\n')`
unfoldable pub last_newline : Text → Option ℕ
last_newline [] = none
last_newline (c ∷ s) = elim (last_newline s) [
  | some i ↦ some (i + 1)
  | none ↦ if c == b'\n' then some 0 else none
]

-- A history of one turn: its first three quarters end at a newline, or there are none.
unfoldable pub partition_one : Text → Option (Text × Text)
unfolding is_char_boundary last_newline
partition_one prompt =
    let threshold = length prompt - length prompt / 4 in
    if is_char_boundary prompt threshold
    then some (elim (last_newline (take threshold prompt)) [
      | some idx ↦ (take idx prompt, drop (idx + 1) prompt)
      | none ↦ ([], prompt)
    ])
    else none

-- The bytes of the characters that two turns begin with.
unfoldable pub current_match : List Text → List Text → ℕ
unfolding eqb
current_match (c ∷ cs) (d ∷ ds) =
    let rest = current_match cs ds in if eqb c d then length c + rest else 0
current_match _ _ = 0

unfoldable pub lcp_len : Text → ℕ → List Text → ℕ
unfolding current_match chars
lcp_len first lcp [] = lcp
lcp_len first lcp (s ∷ history) =
    let m = current_match (chars first) (chars s) in
    lcp_len first (if ltb m lcp then m else lcp) history

abbrev pub last_of : Text → List Text → Text
last_of s [] = s
last_of s (t ∷ history) = last_of t history

-- Firmware and state; `none` is a panic.
unfoldable pub split_last : Text → Text → ℕ → Option (Text × Text)
unfolding is_char_boundary
split_last first last lcp =
    if is_char_boundary first lcp && is_char_boundary last lcp
    then some (take lcp first, drop lcp last)
    else none

unfoldable pub render_partition : List Text → Option (Text × Text)
unfolding partition_one lcp_len split_last
render_partition [] = some ([], [])
render_partition (prompt ∷ []) = partition_one prompt
render_partition (first ∷ second ∷ history) =
    split_last first (last_of second history) (lcp_len first (length first) (second ∷ history))
