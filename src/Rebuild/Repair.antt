-- ===== src/Rebuild/Repair.antt =====
-- `repair_orphaned_tool_results` of src/rebuild.rs. The ids that a message may answer are those of
-- the message before it, as the list came in: they are passed along the walk.
pub mod Strip
pub mod Paired
pub mod Left
mod Tests
use ostk_cache.Prelude.{
  ℕ, ◌+◌, ◌-◌, Bool, true, false, List, [], ◌∷◌, Option, none, some, Text, length, retain,
  if◌then◌else◌,
}
use ostk_cache.Json.{Value, get_str, get_array, update_array}
use ostk_cache.Rebuild.Messages.{contains, is_user, is_tool_result, collect_tool_use_ids}

-- A tool result stays if it answers one of the ids; any other block stays.
unfoldable pub keep_block : List Text → Value → Bool
keep_block valid block =
    if is_tool_result block
    then elim (get_str "tool_use_id" block) [ none ↦ false | some id ↦ contains valid id ]
    else true

unfoldable pub strip_message : List Text → Value → Value × ℕ
strip_message valid msg =
    if is_user msg
    then elim (get_array "content" msg) [
      | none ↦ (msg, 0)
      | some bs ↦ (
        update_array "content" (retain (keep_block valid)) msg,
        length bs - length (retain (keep_block valid) bs),
      )
    ]
    else (msg, 0)

unfoldable pub strip_orphans : List Text → List Value → List Value × ℕ
strip_orphans valid [] = ([], 0)
strip_orphans valid (m ∷ ms) =
    let (m', n) = strip_message valid m in
    let (ms', k) = strip_orphans (collect_tool_use_ids m) ms in (m' ∷ ms', n + k)

-- A user message whose content is an empty array goes.
unfoldable pub not_emptied : Value → Bool
not_emptied msg =
    if is_user msg
    then elim (get_array "content" msg) [ none ↦ true | some [] ↦ false | some (b ∷ bs) ↦ true ]
    else true

unfoldable pub repair_orphaned_tool_results : List Value → List Value × ℕ
repair_orphaned_tool_results messages =
    let (stripped, n) = strip_orphans [] messages in (retain not_emptied stripped, n)
