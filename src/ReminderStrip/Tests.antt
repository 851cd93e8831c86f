-- ===== src/ReminderStrip/Tests.antt =====
-- Runs of src/system_reminder_strip.rs, after its own tests.
use ostk_cache.Prelude.{
  ◌≡◌, ◌≢◌, refl, List, [], ◌∷◌, none, some, String, Text, codes, arith, starts_with, eqb, all,
}
use text.Mathlib.TextEquality.{eq_iff}
use ostk_cache.Json.{
  Value, str, array, object, nil, cons, end, entry, text_block, get, get_array, has_str,
}
use ostk_cache.ReminderStrip.{
  find, drop_newline, removed, strip_reminders_in_str, strip_reminders_recursive,
  prune_empty_text_blocks, clean_content, protected_current_user_idx,
  strip_system_reminders_from_past_turns, is_user, is_empty_text,
}
use ostk_cache.ReminderStrip.Scan.{Describes, strip_reminders-Describes}
use ostk_cache.ReminderStrip.Turns.{SameButContent, CurrentKept, past_turns_only}

abbrev nudged : Text
nudged = codes "before <system-reminder>nudge</system-reminder>\nafter"

strips_block :
    strip_reminders_in_str nudged
    ≡ some (
      codes "before after",
      record {
        blocks_removed = 1;
        bytes_removed = 41;
        empty_blocks_pruned = 0;
        placeholders_inserted = 0;
      },
    )
unfolding strip_reminders_in_str find drop_newline removed starts_with
strips_block = refl

unclosed_stays : strip_reminders_in_str (codes "ok <system-reminder>unterminated") ≡ none
unfolding strip_reminders_in_str find drop_newline removed starts_with
unclosed_stays = refl

abbrev user : Value → Value
user content = object (entry "role" (str (codes "user")) (entry "content" content end))

abbrev reminder : Value
reminder = array (cons (text_block (codes "<system-reminder>x</system-reminder>")) nil)

abbrev turns : List Value
turns = user reminder ∷ user (array (cons (text_block nudged) nil)) ∷ []

abbrev request : Value
request = object (
    entry "messages"
      (array (cons (user reminder) (cons (user (array (cons (text_block nudged) nil))) nil))) end)

second_protected : protected_current_user_idx turns ≡ some 1
unfolding protected_current_user_idx is_user has_str get_array all eqb
second_protected = refl

past_reminder_cut : (clean_content reminder).0 ≡ array (cons (text_block (codes "(reminder)")) nil)
unfolding clean_content strip_reminders_recursive strip_reminders_in_str prune_empty_text_blocks
    find drop_newline removed starts_with is_empty_text eqb
past_reminder_cut = refl

one_block : (clean_content reminder).1.blocks_removed ≡ 1
unfolding clean_content strip_reminders_recursive strip_reminders_in_str prune_empty_text_blocks
    find drop_newline removed starts_with is_empty_text eqb
one_block = refl

messages≢model : ◌≢◌ {A = String} "messages" "model"
messages≢model = ground (arith, eq_iff "messages" "model")

strip_reminders-Describes_example : Describes nudged (strip_reminders_in_str nudged)
strip_reminders-Describes_example = strip_reminders-Describes nudged

past_turns_only_example :
    (ms' : List Value) × (get_array "messages" (strip_system_reminders_from_past_turns request).0
      ≡ some ms')
    × SameButContent turns ms'
    × CurrentKept turns ms'
    × (get "model" (strip_system_reminders_from_past_turns request).0 ≡ get "model" request)
unfolding get_array
past_turns_only_example = past_turns_only request turns "model" refl messages≢model
