-- ===== src/Rebuild/Messages.antt =====
-- What src/rebuild.rs reads off one message: its tool calls, its tool results, and whether a user
-- wrote it. A `HashSet` of strings is a list that is only asked whether it holds a text.
use ostk_cache.Prelude.{
  ℕ, suc, Bool, true, false, not, ◌&&◌, ◌||◌, List, [], ◌∷◌, Option, none, some, Text, eqb, all,
  any, if◌then◌else◌,
}
use ostk_cache.Json.{Value, get_str, get_array, has_str}

unfoldable pub contains : List Text → Text → Bool
contains [] id = false
contains (x ∷ xs) id = eqb x id || contains xs id

unfoldable pub is_user : Value → Bool
is_user msg = has_str "role" "user" msg

unfoldable pub is_assistant : Value → Bool
is_assistant msg = has_str "role" "assistant" msg

abbrev pub is_tool_result : Value → Bool
is_tool_result block = has_str "type" "tool_result" block

abbrev pub is_tool_use : Value → Bool
is_tool_use block = has_str "type" "tool_use" block

-- The texts under a key of the tool calls among some blocks.
unfoldable pub use_ids : List Value → List Text
use_ids [] = []
use_ids (b ∷ bs) =
    let rest = use_ids bs in
    if is_tool_use b then elim (get_str "id" b) [ none ↦ rest | some id ↦ id ∷ rest ] else rest

unfoldable pub collect_tool_use_ids : Value → List Text
unfolding use_ids
collect_tool_use_ids msg = elim (get_array "content" msg) [ none ↦ [] | some bs ↦ use_ids bs ]

unfoldable pub message_contains_tool_use : Value → Bool
message_contains_tool_use msg = elim (get_array "content" msg) [
  | none ↦ false
  | some bs ↦ any is_tool_use bs
]

unfoldable pub message_only_tool_results : Value → Bool
message_only_tool_results msg = elim (get_array "content" msg) [
  | none ↦ false
  | some [] ↦ false
  | some (b ∷ bs) ↦ all is_tool_result (b ∷ bs)
]

-- A block whose `type` is no string counts as one of another type.
unfoldable pub is_real_user_message : Value → Bool
is_real_user_message msg = elim (get_array "content" msg) [
  | none ↦ true
  | some [] ↦ true
  | some (b ∷ bs) ↦ any (λ x. not (is_tool_result x)) (b ∷ bs)
]

-- `iter().enumerate().rev().find(p)`: the last index that passes.
unfoldable pub last_index : (Value → Bool) → List Value → Option ℕ
last_index p [] = none
last_index p (m ∷ ms) = elim (last_index p ms) [
  | some i ↦ some (suc i)
  | none ↦ if p m then some 0 else none
]

unfoldable pub find_cycle_boundary_idx : List Value → Option ℕ
unfolding last_index
find_cycle_boundary_idx messages = last_index (λ m. is_user m && is_real_user_message m) messages
