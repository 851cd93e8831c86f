-- ===== src/ReminderStrip.antt =====
-- src/system_reminder_strip.rs: `<system-reminder>` blocks are cut out of past turns. A cursor into
-- the text is the suffix behind it. Each round of the loop drops a block, so the length of the text
-- is enough fuel.
pub mod Find
pub mod Scan
pub mod Prune
pub mod Turns
mod Tests
use ostk_cache.Prelude.{
  ℕ, suc, zero, ◌+◌, ◌-◌, Bool, true, false, not, ◌&&◌, ◌||◌, List, [], ◌∷◌, ◌++◌, Option, none,
  some, Text, codes, starts_with, ltb, ◌==◌, if◌then◌else◌, length, drop, all, eqb, ◌>>=◌, or_else,
  is_some,
}
use ostk_cache.Json.{
  Value, null, bool, num, literal, str, array, object, Elements, nil, cons, Entries, end, entry,
  get, update, get_str, has_str, get_array, is_object, text_block, update_array, lookup,
}

abbrev pub open_tag : Text
open_tag = codes "<system-reminder>"

abbrev pub close_tag : Text
close_tag = codes "</system-reminder>"

abbrev pub placeholder_text : Text
placeholder_text = codes "(reminder)"

pub record SystemReminderStats : Type 0 where
  pub blocks_removed : ℕ
  pub bytes_removed : ℕ
  pub empty_blocks_pruned : ℕ
  pub placeholders_inserted : ℕ

abbrev pub no_stats : SystemReminderStats
no_stats = record {
  blocks_removed = 0;
  bytes_removed = 0;
  empty_blocks_pruned = 0;
  placeholders_inserted = 0;
}

unfoldable pub add : SystemReminderStats → SystemReminderStats → SystemReminderStats
add a b = record {
  blocks_removed = a.blocks_removed + b.blocks_removed;
  bytes_removed = a.bytes_removed + b.bytes_removed;
  empty_blocks_pruned = a.empty_blocks_pruned + b.empty_blocks_pruned;
  placeholders_inserted = a.placeholders_inserted + b.placeholders_inserted;
}

-- `s.find(needle)`: what stands before the first occurrence, and what stands behind it.
unfoldable pub find : Text → Text → Option (Text × Text)
find needle [] = none
find needle (c ∷ cs) =
    let later = find needle cs in
    if starts_with needle (c ∷ cs)
    then some ([], drop (length needle) (c ∷ cs))
    else later >>= λ (before, after). some (c ∷ before, after)

-- A newline directly behind the block goes with it.
unfoldable pub drop_newline : Text → Text
drop_newline [] = []
drop_newline (c ∷ cs) = if c == b'\n' then cs else c ∷ cs

-- `drop_end - abs_open`
unfoldable pub removed : Text → Text → ℕ
removed inner after =
    length open_tag
    + (length inner + (length close_tag + (length after - length (drop_newline after))))

unfoldable pub scan : ℕ → Text → Text → ℕ → ℕ → Text × ℕ × ℕ
scan zero rest out blocks bytes = (out ++ rest, blocks, bytes)
scan (suc fuel) rest out blocks bytes = elim (find open_tag rest) [
  | none ↦ (out ++ rest, blocks, bytes)
  | some (before, body) ↦ elim (find close_tag body) [
    | none ↦ (out ++ rest, blocks, bytes)
    | some (inner, after) ↦
        scan fuel (drop_newline after) (out ++ before) (blocks + 1) (bytes + removed inner after)
  ]
]

stats_of : ℕ → ℕ → SystemReminderStats
stats_of blocks bytes = record {
  blocks_removed = blocks;
  bytes_removed = bytes;
  empty_blocks_pruned = 0;
  placeholders_inserted = 0;
}

unfoldable pub strip_reminders_in_str : Text → Option (Text × SystemReminderStats)
unfolding scan stats_of
strip_reminders_in_str s =
    if not (is_some (find open_tag s))
    then none
    else (let (out, blocks, bytes) = scan (length s) s [] 0 0 in
        if blocks == 0 then none else some (out, stats_of blocks bytes))

strip_str : Text → Option (Text × SystemReminderStats) → Value × SystemReminderStats
strip_str s none = (str s, no_stats)
strip_str s (some (stripped, stats)) = (str stripped, stats)

unfoldable mutual
  unfolding strip_str add

  pub strip_reminders_recursive : Value → Value × SystemReminderStats
  strip_reminders_recursive (str s) = strip_str s (strip_reminders_in_str s)
  strip_reminders_recursive (array xs) = let (xs', n) = strip_items xs in (array xs', n)
  strip_reminders_recursive (object fs) = let (fs', n) = strip_fields fs in (object fs', n)
  strip_reminders_recursive null = (null, no_stats)
  strip_reminders_recursive (bool b) = (bool b, no_stats)
  strip_reminders_recursive (num n) = (num n, no_stats)
  strip_reminders_recursive (literal t) = (literal t, no_stats)

  pub strip_items : Elements → Elements × SystemReminderStats
  strip_items nil = (nil, no_stats)
  strip_items (cons x xs) =
      let (x', n) = strip_reminders_recursive x in
      let (xs', m) = strip_items xs in (cons x' xs', add n m)

  pub strip_fields : Entries → Entries × SystemReminderStats
  strip_fields end = (end, no_stats)
  strip_fields (entry k v fs) =
      let (v', n) = strip_reminders_recursive v in
      let (fs', m) = strip_fields fs in (entry k v' fs', add n m)

-- `{"type": "text", "text": ""}`, with whatever else.
unfoldable pub is_empty_text : Value → Bool
unfolding has_str
is_empty_text item = is_object item && (has_str "type" "text" item && has_str "text" "" item)

abbrev pub placeholder : Value
placeholder = text_block placeholder_text

-- The array after `retain`: a placeholder where pruning has emptied it.
refill : ℕ → Elements → Elements × ℕ
refill zero xs = (xs, 0)
refill (suc n) nil = (cons placeholder nil, 1)
refill (suc n) (cons x xs) = (cons x xs, 0)

-- The result is the value, the blocks pruned and the placeholders put in. `retain` and the walk
-- over what it keeps are one pass: the walk leaves an empty text block, or any other, what it is.
unfoldable mutual
  unfolding refill

  pub prune_empty_text_blocks : Value → Value × ℕ × ℕ
  prune_empty_text_blocks (array xs) =
      let (kept, local, p, ph) = prune_items xs in
      let (filled, more) = refill local kept in (array filled, local + p, more + ph)
  prune_empty_text_blocks (object fs) = let (fs', p, ph) = prune_fields fs in (object fs', p, ph)
  prune_empty_text_blocks null = (null, 0, 0)
  prune_empty_text_blocks (bool b) = (bool b, 0, 0)
  prune_empty_text_blocks (num n) = (num n, 0, 0)
  prune_empty_text_blocks (literal t) = (literal t, 0, 0)
  prune_empty_text_blocks (str s) = (str s, 0, 0)

  -- What is kept, how many items of this array were pruned, and the counts below it.
  pub prune_items : Elements → Elements × ℕ × ℕ × ℕ
  prune_items nil = (nil, 0, 0, 0)
  prune_items (cons x xs) =
      let (x', p, ph) = prune_empty_text_blocks x in
      let (kept, local, q, qh) = prune_items xs in
      if is_empty_text x then (kept, suc local, q, qh) else (cons x' kept, local, p + q, ph + qh)

  pub prune_fields : Entries → Entries × ℕ × ℕ
  prune_fields end = (end, 0, 0)
  prune_fields (entry k v fs) =
      let (v', p, ph) = prune_empty_text_blocks v in
      let (fs', q, qh) = prune_fields fs in (entry k v' fs', p + q, ph + qh)

unfoldable pub is_user : Value → Bool
unfolding has_str
is_user msg = has_str "role" "user" msg

-- A user message that holds blocks, all of them tool results.
unfoldable pub is_tool_result_user_message : Value → Bool
unfolding is_user
is_tool_result_user_message msg = is_user msg && elim (get_array "content" msg) [
  | none ↦ false
  | some [] ↦ false
  | some (b ∷ bs) ↦ all (has_str "type" "tool_result") (b ∷ bs)
]

-- `iter().rposition(p)`
unfoldable pub rposition : (Value → Bool) → List Value → Option ℕ
rposition p [] = none
rposition p (m ∷ ms) = elim (rposition p ms) [
  | some i ↦ some (suc i)
  | none ↦ if p m then some 0 else none
]

unfoldable pub protected_current_user_idx : List Value → Option ℕ
unfolding rposition is_tool_result_user_message
protected_current_user_idx messages =
    or_else (rposition (λ m. is_user m && not (is_tool_result_user_message m)) messages)
      (rposition is_user messages)

-- A bare string that the strip has emptied.
fill_string : Value → Value × ℕ
fill_string (str []) = (str placeholder_text, 1)
fill_string v = (v, 0)

-- The body of the loop, on the content of an unprotected message.
unfoldable pub clean_content : Value → Value × SystemReminderStats
unfolding add fill_string
clean_content content =
    let (stripped, stats) = strip_reminders_recursive content in
    if stats.blocks_removed == 0
    then (content, no_stats)
    else (let (kept, pruned, placeholders) = prune_empty_text_blocks stripped in
        let (filled, extra) = fill_string kept in
        (
          filled,
          record stats {
            empty_blocks_pruned = stats.empty_blocks_pruned + pruned;
            placeholders_inserted = stats.placeholders_inserted + placeholders + extra;
          },
        ))

clean_message : Value → Value × SystemReminderStats
unfolding clean_content
clean_message msg = elim (get "content" msg) [
  | none ↦ (msg, no_stats)
  | some content ↦
      let (content', stats) = clean_content content in (update "content" (λ _. content') msg, stats)
]

-- The loop over the messages; the first argument is the protected index, counted from here.
unfoldable pub clean_messages : Option ℕ → List Value → List Value × SystemReminderStats
unfolding clean_message
clean_messages skip [] = ([], no_stats)
clean_messages (some zero) (m ∷ ms) = let (ms', n) = clean_messages none ms in (m ∷ ms', n)
clean_messages (some (suc i)) (m ∷ ms) =
    let (m', n) = clean_message m in
    let (ms', k) = clean_messages (some i) ms in (m' ∷ ms', add n k)
clean_messages none (m ∷ ms) =
    let (m', n) = clean_message m in let (ms', k) = clean_messages none ms in (m' ∷ ms', add n k)

pub strip_system_reminders_from_past_turns : Value → Value × SystemReminderStats
unfolding clean_messages
strip_system_reminders_from_past_turns value = elim (get_array "messages" value) [
  | none ↦ (value, no_stats)
  | some messages ↦
      let (messages', stats) = clean_messages (protected_current_user_idx messages) messages in
      (update_array "messages" (λ _. messages') value, stats)
]
