-- ===== src/Rebuild/Orientation.antt =====
-- The orientation block that src/rebuild.rs appends to the system prompt of a request, and the `ttl`
-- that it clamps. The count of `cache_control` fields and its limit are ostk_abi's.
pub mod Once
pub mod Markers
mod Tests
use text.Mathlib.Text.{◌==◌ as str_eq}
use ostk_cache.Prelude.{
  ℕ, ◌+◌, ◌/◌, ◌%◌, Bool, true, false, not, ◌&&◌, ◌||◌, List, [], ◌∷◌, ◌++◌, Option, none, some,
  String, Text, codes, str_contains, ltb, if◌then◌else◌, any,
}
use ostk_cache.Prelude.Literals.{utf8}
use ostk_cache.Json.{
  Value, null, bool, num, literal, str, array, object, Elements, nil, cons, Entries, end, entry,
  to_list, from_list, lookup, get, get_str, has_str, insert, update, text_block,
}

-- What ostk_abi's `cache_control` offers.
pub record CacheControl : Type 0 where
  pub count_fields : Value → ℕ
  pub limit : ℕ

unfoldable pub kernel_orientation : Text
unfolding utf8
kernel_orientation =
    utf8
      "# ostk-cache kernel orientation\n\nYou are operating from a kernel-projected working set, not the full conversation history. Your messages array contains a synthesized projection of state at the cycle boundary plus the in-flight chain of the current cycle. Discipline below applies on every turn while this orientation is in your system prompt.\n\n## Trust the projection\n\nThe projection is your authoritative working state. Do not attempt to reconstitute the prior transcript wholesale. When you need a historical artifact back, reach for the **right primitive**:\n\n- **re-run** → live answers (file contents, process info, build status). State has moved on anyway; re-querying is cheaper than recovering a stale answer.\n- **`recall:<addr>`** → historical answers (decisions, prior reasoning). Use ONLY for specific addresses surfaced in the projection. Recall is not a transcript-walker; aggregating it across prior turns defeats the paging.\n- **handle** (`{file_id, gen, size}`) → content dedup for large outputs you might want back. (Future: tool_result `out:Nb` stubs will become typed handles per →1812/→1813.)\n\n## Asymmetry: shapes vs bodies\n\nTool results in the projection are **shapes-only for `[ok]`, body-inline for `[error]`** under a budget. Errors are signal-dense and small; you almost always want them without a re-fetch.\n\n## Two more disciplines\n\n- **Ask the user** for specifics the projection doesn't expose (cheaper and more honest than reconstructing from substrate).\n- **Commit important conclusions to substrate** (`ostk decide`, needle creation) when you want them to survive the next projection.\n\n## End every turn with a digest fence\n\nSo your own intent survives the next projection, emit (as the LAST thing in your response, after any markdown, before any trailing whitespace) exactly this shape:\n\n```\n<turn-digest>{\"intent\":\"what you were trying to accomplish\",\"outcome\":\"agreed|disagreed|committed|flagged|blocked|open\",\"artifacts\":[\"path/file.rs\",\"decision:foo_bar\",\"needle:1828\"],\"narrative\":\"1-2 sentences capturing what you did this turn\"}</turn-digest>\n```\n\nKeep it terse — ~150 tokens. The proxy harvests this fence and renders the last K into the next projection's `## Recent assistant turns` section. Without it, your turn becomes shape-only on the next cycle.\n\n---\n"

abbrev pub orientation_header_marker : Text
orientation_header_marker = codes "# ostk-cache kernel orientation"

unfoldable pub ttl_is_1h : Option Value → Bool
ttl_is_1h none = false
ttl_is_1h (some c) = has_str "ttl" "1h" c

-- Whether a `cache_control` with the one-hour `ttl` is anywhere in a value.
unfoldable mutual
  unfolding ttl_is_1h

  pub value_has_1h_marker : Value → Bool
  value_has_1h_marker (object fs) = ttl_is_1h (lookup "cache_control" fs) || fields_have_1h fs
  value_has_1h_marker (array xs) = items_have_1h xs
  value_has_1h_marker null = false
  value_has_1h_marker (bool b) = false
  value_has_1h_marker (num n) = false
  value_has_1h_marker (literal t) = false
  value_has_1h_marker (str s) = false

  pub items_have_1h : Elements → Bool
  items_have_1h nil = false
  items_have_1h (cons x xs) = value_has_1h_marker x || items_have_1h xs

  pub fields_have_1h : Entries → Bool
  fields_have_1h end = false
  fields_have_1h (entry k v fs) = value_has_1h_marker v || fields_have_1h fs

unfoldable pub messages_have_1h : Value → Bool
messages_have_1h req = elim (get "messages" req) [ none ↦ false | some m ↦ value_has_1h_marker m ]

unfoldable pub clamp_ttl_to_harness_floor : Value → String → String
unfolding messages_have_1h
clamp_ttl_to_harness_floor req ttl =
    if not (str_eq ttl "1h") && messages_have_1h req then "1h" else ttl

-- `value[k] = w`: on a null an object is made; on what is no object the source panics, here `none`.
unfoldable pub set_index : String → Value → Value → Option Value
set_index k w (object fs) = some (object (insert k w fs))
set_index k w null = some (object (entry k w end))
set_index k w _ = none

unfoldable pub has_orientation : Value → Bool
has_orientation block = elim (get_str "text" block) [
  | none ↦ false
  | some s ↦ str_contains s orientation_header_marker
]

unfoldable pub append_block : Value → Value → Option Value → Option (Value × Bool)
unfolding has_orientation set_index
append_block value block (some (array xs)) =
    if any has_orientation (to_list xs)
    then some (value, false)
    else some (update "system" (λ _. array (from_list (to_list xs ++ block ∷ []))) value, true)
append_block value block (some (str s)) =
    if str_contains s orientation_header_marker
    then some (value, false)
    else elim (set_index "system" (array (cons (text_block s) (cons block nil))) value) [
      | none ↦ none
      | some value' ↦ some (value', true)
    ]
append_block value block none = elim (set_index "system" (array (cons block nil)) value) [
  | none ↦ none
  | some value' ↦ some (value', true)
]
append_block value block (some _) = some (value, false)

module _ (api : CacheControl) where
  unfoldable pub new_block : Value → String → Value
  new_block value ttl =
      if ltb (api.count_fields value) api.limit
      then object (
          entry "cache_control"
            (object (entry "ttl" (str (codes ttl)) (entry "type" (str (codes "ephemeral")) end)))
            (entry "text" (str kernel_orientation) (entry "type" (str (codes "text")) end)))
      else text_block kernel_orientation

  unfoldable pub append_kernel_orientation_to_system : Value → String → Option (Value × Bool)
  unfolding new_block append_block
  append_kernel_orientation_to_system value ttl =
      append_block value (new_block value ttl) (get "system" value)
