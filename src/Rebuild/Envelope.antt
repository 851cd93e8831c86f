-- ===== src/Rebuild/Envelope.antt =====
-- The envelope that src/rebuild.rs finds in the dropped turns: four lines of a text, the last such.
pub mod Last
mod Tests
use ostk_cache.Prelude.Lines.{lines}
use ostk_cache.Prelude.{
  ℕ, Bool, true, false, ◌&&◌, List, [], ◌∷◌, ◌++◌, Option, none, some, Text, codes, eqb,
  starts_with, if◌then◌else◌, or_else, unwrap_or,
}
use ostk_cache.Json.{Value, str, array, to_list, get, get_str}

abbrev pub newline : Text
newline = 10 ∷ []

unfoldable pub is_quadruplet : Text → Text → Text → Text → Bool
is_quadruplet a b c d =
    starts_with (codes "[procs]") a
    && (starts_with (codes "[loadavg]") b
        && (starts_with (codes "[meminfo]") c && starts_with (codes "[ctx]") d))

unfoldable pub joined_lines : Text → Text → Text → Text → Text
joined_lines a b c d = a ++ (newline ++ (b ++ (newline ++ (c ++ (newline ++ d)))))

-- The loop, on the lines from `i` on: a quadruplet is skipped as a whole.
unfoldable pub scan_lines : Option Text → List Text → Option Text
unfolding is_quadruplet joined_lines
scan_lines last (a ∷ b ∷ c ∷ d ∷ rest) = elim (is_quadruplet a b c d) [
  | true ↦ scan_lines (some (joined_lines a b c d)) rest
  | false ↦ scan_lines last (b ∷ c ∷ d ∷ rest)
]
scan_lines last _ = last

unfoldable pub find_envelope_quadruplet : Text → Option Text
unfolding scan_lines
find_envelope_quadruplet text = scan_lines none (lines text)

-- The texts of the blocks inside a tool result.
unfoldable pub inner_texts : List Value → List Text
inner_texts [] = []
inner_texts (b ∷ bs) =
    let rest = inner_texts bs in elim (get_str "text" b) [ none ↦ rest | some t ↦ t ∷ rest ]

unfoldable pub result_texts : Option Value → List Text
unfolding inner_texts
result_texts (some (str s)) = s ∷ []
result_texts (some (array xs)) = inner_texts (to_list xs)
result_texts _ = []

unfoldable pub block_texts : Value → List Text
unfolding result_texts
block_texts block =
    let kind = unwrap_or (get_str "type" block) [] in
    if eqb kind (codes "text")
    then elim (get_str "text" block) [ none ↦ [] | some t ↦ t ∷ [] ]
    else if eqb kind (codes "tool_result")
    then result_texts (get "content" block)
    else []

unfoldable pub blocks_texts : List Value → List Text
unfolding block_texts
blocks_texts [] = []
blocks_texts (b ∷ bs) = block_texts b ++ blocks_texts bs

unfoldable pub content_texts : Option Value → List Text
unfolding blocks_texts
content_texts (some (str s)) = s ∷ []
content_texts (some (array xs)) = blocks_texts (to_list xs)
content_texts _ = []

unfoldable pub collect_text_content : Value → List Text
unfolding content_texts
collect_text_content msg = content_texts (get "content" msg)

unfoldable pub latest_in : Option Text → List Text → Option Text
unfolding find_envelope_quadruplet
latest_in latest [] = latest
latest_in latest (t ∷ ts) = latest_in (or_else (find_envelope_quadruplet t) latest) ts

unfoldable pub latest_of : Option Text → List Value → Option Text
unfolding latest_in collect_text_content
latest_of latest [] = latest
latest_of latest (msg ∷ msgs) = latest_of (latest_in latest (collect_text_content msg)) msgs

unfoldable pub extract_latest_envelope : List Value → Option Text
unfolding latest_of
extract_latest_envelope messages = latest_of none messages
