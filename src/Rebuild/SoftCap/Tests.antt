-- ===== src/Rebuild/SoftCap/Tests.antt =====
-- Runs of the soft-cap reduction of src/rebuild.rs, with a stand-in for the printer of numbers.
use ostk_cache.Prelude.{◌≡◌, refl, arith, true, List, [], ◌∷◌, some, String, codes, eqb, all, any}
use ostk_cache.Json.{Value, str, array, object, nil, cons, end, entry, get_array, has_str}
use ostk_cache.Size.{Printer}
use ostk_cache.Rebuild.Messages.{
  contains, is_user, is_assistant, collect_tool_use_ids, use_ids, message_contains_tool_use,
  message_only_tool_results,
}
use ostk_cache.Rebuild.Repair.Strip.{paired, answers}
use ostk_cache.Rebuild.Repair.{keep_block}
use ostk_cache.Rebuild.Repair.Paired.{paired-Paired}
use ostk_cache.Rebuild.SoftCap.{
  ReductionReport, is_pair, drop_unreferenced_tools, no_reduction, enforce_soft_cap,
  current_body_size,
}
use ostk_cache.Rebuild.SoftCap.Outcome.{Finished, enforce-Finished}
use ostk_cache.Rebuild.SoftCap.Pairs.{PairedBody, enforce-PairedBody}
use ostk_cache.Rebuild.SoftCap.Tools.{ToolsDropped, drop-ToolsDropped}

abbrev printer : Printer
printer = record { to_string = λ v. some (codes "null"); one_decimal = λ a b. codes "1.0" }

abbrev message : String → Value → Value
message role block =
    object (entry "role" (str (codes role)) (entry "content" (array (cons block nil)) end))

abbrev call : Value
call = object (
    entry "type" (str (codes "tool_use"))
      (entry "id" (str (codes "a")) (entry "name" (str (codes "Read")) end)))

abbrev result : Value
result =
    object (entry "type" (str (codes "tool_result")) (entry "tool_use_id" (str (codes "a")) end))

abbrev text : Value
text = object (entry "type" (str (codes "text")) (entry "text" (str (codes "go on")) end))

abbrev turns : List Value
turns =
    message "user" text
    ∷ message "assistant" call
    ∷ message "user" result
    ∷ message "user" text
    ∷ []

abbrev tools : List Value
tools =
    object (entry "name" (str (codes "Read")) end)
    ∷ object (entry "name" (str (codes "Write")) end)
    ∷ []

abbrev body : Value
body = object (
    entry "messages"
      (array (
        cons (message "user" text) (
          cons (message "assistant" call)
            (cons (message "user" result) (cons (message "user" text) nil)))))
      (entry "tools"
        (array (
          cons (object (entry "name" (str (codes "Read")) end))
            (cons (object (entry "name" (str (codes "Write")) end)) nil)))
        end))

abbrev report : ReductionReport
report = no_reduction printer body

body_messages : get_array "messages" body ≡ some turns
unfolding get_array
body_messages = refl

body_tools : get_array "tools" body ≡ some tools
unfolding get_array
body_tools = refl

turns-paired : paired [] turns ≡ true
unfolding paired answers keep_block collect_tool_use_ids use_ids contains is_user eqb get_array
    has_str all
turns-paired = refl

turns_pair : is_pair (message "assistant" call) (message "user" result) ≡ true
unfolding is_pair is_assistant is_user message_contains_tool_use message_only_tool_results eqb
    get_array has_str any all
turns_pair = refl

body_paired : PairedBody body
body_paired = record {
  messages = turns;
  are = body_messages;
  pairs = paired-Paired [] turns turns-paired;
}

enforce-PairedBody_example : PairedBody (enforce_soft_cap printer body 2).0
enforce-PairedBody_example = enforce-PairedBody printer body 2 body_paired

enforce-Finished_example :
    Finished printer
      (current_body_size printer body)
      2
      (enforce_soft_cap printer body 2).0
      (enforce_soft_cap printer body 2).1
enforce-Finished_example = enforce-Finished printer body 2 (omega arith)

drop-ToolsDropped_example :
    ToolsDropped tools turns
      (drop_unreferenced_tools body report).0
      (drop_unreferenced_tools body report).1
drop-ToolsDropped_example = drop-ToolsDropped body report tools turns body_tools body_messages
