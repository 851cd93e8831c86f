-- ===== src/Rebuild/Repair/Tests.antt =====
-- Runs of `repair_orphaned_tool_results` of src/rebuild.rs, after its own tests.
use ostk_cache.Prelude.{◌≡◌, refl, List, [], ◌∷◌, String, codes, eqb, retain}
use ostk_cache.Json.{
  Value, str, array, object, nil, cons, end, entry, get_array, has_str, update_array,
}
use ostk_cache.Rebuild.Messages.{contains, is_user, collect_tool_use_ids, use_ids}
use ostk_cache.Rebuild.Repair.{
  keep_block, strip_message, strip_orphans, not_emptied, repair_orphaned_tool_results,
}
use ostk_cache.Rebuild.Repair.Paired.{Paired, repair-Paired, repair_idem}
use ostk_cache.Rebuild.Repair.Left.{Left, repair-Left}

abbrev message : String → Value → Value
message role block =
    object (entry "role" (str (codes role)) (entry "content" (array (cons block nil)) end))

abbrev call : Value
call = object (entry "type" (str (codes "tool_use")) (entry "id" (str (codes "a")) end))

abbrev result : String → Value
result id =
    object (entry "type" (str (codes "tool_result")) (entry "tool_use_id" (str (codes id)) end))

-- The second result answers a call that is not in the message before it.
abbrev history : List Value
history = message "assistant" call ∷ message "user" (result "a") ∷ message "user" (result "b") ∷ []

orphan_goes :
    repair_orphaned_tool_results history
    ≡ (message "assistant" call ∷ message "user" (result "a") ∷ [], 1)
unfolding repair_orphaned_tool_results strip_orphans strip_message not_emptied keep_block
    collect_tool_use_ids use_ids contains is_user eqb retain get_array has_str update_array
orphan_goes = refl

repair-Paired_example : Paired [] (repair_orphaned_tool_results history).0
repair-Paired_example = repair-Paired history

repair-Left_example : Left [] history (repair_orphaned_tool_results history).0
repair-Left_example = repair-Left history

repair_idem_example :
    repair_orphaned_tool_results (repair_orphaned_tool_results history).0
    ≡ ((repair_orphaned_tool_results history).0, 0)
repair_idem_example = repair_idem history
