-- ===== src/TranscriptTail/Events.antt =====
-- The events of a transcript's lines, src/transcript_tail.rs. The parser of a line, into the fields
-- of `RawEvent` or into a value, and the printer are serde's, and parameters (Serde).
use ostk_cache.Prelude.{
  ℕ, ◌+◌, ◌-◌, Bool, false, List, [], ◌∷◌, ◌++◌, Option, none, some, Text, codes, eqb,
  if◌then◌else◌, ◌>>=◌, or_else, unwrap_or, length, drop, all,
}
use ostk_cache.Prelude.Lines.{lines}
use ostk_cache.Prelude.Utf8.{valid_utf8}
use ostk_cache.Json.{Value, str, array, get, get_str, get_array, has_str, to_list}
use ostk_cache.Size.{decimal}
use ostk_cache.TranscriptTail.{truncate_chars}

pub data TailEventKind : Type 0 where
  user assistant tool_use tool_result : TailEventKind
  other : Text → TailEventKind

pub record TailEvent : Type 0 where
  pub kind : TailEventKind
  pub tool_use_id : Option Text
  pub tool_name : Option Text
  pub summary : Text
  pub timestamp : Option Text

pub record RawEvent : Type 0 where
  pub type_ : Option Text
  pub timestamp : Option Text
  pub message : Option Value
  pub tool_use_id_camel : Option Text
  pub tool_use_id : Option Text
  pub name : Option Text
  pub input : Option Value

pub record Serde : Type 0 where
  pub raw_event : Text → Option RawEvent
  pub from_str : Text → Option Value
  pub to_string : Value → Text

unfoldable pub kind_of : Text → TailEventKind
unfolding eqb
kind_of t =
    if eqb t (codes "user")
    then user
    else if eqb t (codes "assistant")
    then assistant
    else if eqb t (codes "tool_use")
    then tool_use
    else if eqb t (codes "tool_result")
    then tool_result
    else other t

-- `filter_map`
unfoldable pub filter_map {ℓ κ} : {A : Type ℓ} {B : Type κ} → (A → Option B) → List A → List B
filter_map f [] = []
filter_map f (x ∷ xs) = elim (f x) [ none ↦ filter_map f xs | some y ↦ y ∷ filter_map f xs ]

-- `join`
unfoldable pub join : Text → List Text → Text
join sep [] = []
join sep (s ∷ []) = s
join sep (s ∷ t ∷ ts) = s ++ (sep ++ join sep (t ∷ ts))

abbrev pub not_none : List Text → Option (List Text)
not_none [] = none
not_none (t ∷ ts) = some (t ∷ ts)

-- `m.get("content")`, as a string, or the texts of its blocks.
unfoldable pub text_of : Value → Option Text
unfolding filter_map get_str get_array join
text_of m = elim (get_str "content" m) [
  | some s ↦ some s
  | none ↦ get_array "content" m >>= λ arr.
      not_none (filter_map (get_str "text") arr) >>= λ ts. some (join (10 ∷ []) ts)
]

unfoldable pub extract_message_text : Option Value → Option Text
unfolding text_of
extract_message_text message = message >>= text_of

unfoldable pub block_part : Value → Option Text
unfolding get_str truncate_chars eqb
block_part block =
    let t = unwrap_or (get_str "type" block) [] in
    if eqb t (codes "text")
    then (get_str "text" block >>= λ s.
        some (codes "text:\"" ++ (truncate_chars s 80 ++ b'"' ∷ [])))
    else if eqb t (codes "tool_use")
    then some (codes "tool_use:" ++ unwrap_or (get_str "name" block) (codes "?"))
    else some (b'(' ∷ t ++ b')' ∷ [])

unfoldable pub extract_assistant_summary : Option Value → Option Text
unfolding filter_map block_part join get_array
extract_assistant_summary message = message >>= λ m. get_array "content" m >>= λ arr.
    not_none (filter_map block_part arr) >>= λ parts. some (join (b' ' ∷ []) parts)

unfoldable pub sum_texts : List Value → ℕ
unfolding get_str
sum_texts [] = 0
sum_texts (b ∷ bs) = (elim (get_str "text" b) [ none ↦ 0 | some s ↦ length s ]) + sum_texts bs

unfoldable pub size_of : Option Value → ℕ
unfolding sum_texts
size_of (some (str s)) = length s
size_of (some (array xs)) = sum_texts (to_list xs)
size_of _ = 0

unfoldable pub first_result : List Value → Option Text
unfolding has_str get size_of decimal
first_result [] = none
first_result (b ∷ bs) =
    if has_str "type" "tool_result" b
    then some (codes "out:" ++ (decimal (size_of (get "content" b)) ++ b'b' ∷ []))
    else first_result bs

unfoldable pub extract_tool_result_summary : Option Value → Option Text
unfolding get_array first_result
extract_tool_result_summary message = message >>= λ m. get_array "content" m >>= first_result

unfoldable pub is_tool_result_user_event : Option Value → Bool
unfolding get_array has_str all
is_tool_result_user_event message = elim (message >>= get_array "content") [
  | none ↦ false
  | some [] ↦ false
  | some (b ∷ bs) ↦ all (has_str "type" "tool_result") (b ∷ bs)
]

-- `reader.lines().map_while(Result::ok)`: up to a line that is not UTF-8.
unfoldable pub valid_only : List Text → List Text
unfolding valid_utf8
valid_only [] = []
valid_only (l ∷ ls) = let rest = valid_only ls in if valid_utf8 l then l ∷ rest else []

unfoldable pub read_lines : Text → List Text
unfolding lines valid_only
read_lines file = valid_only (lines file)

abbrev pub last_n {ℓ} : {A : Type ℓ} → ℕ → List A → List A
last_n n xs = drop (length xs - n) xs

module _ (serde : Serde) where
  unfoldable pub summary_of : TailEventKind → RawEvent → Text
  unfolding extract_message_text extract_assistant_summary extract_tool_result_summary
      truncate_chars
  summary_of user raw = unwrap_or (extract_message_text raw.message) []
  summary_of assistant raw = unwrap_or (extract_assistant_summary raw.message) []
  summary_of tool_use raw =
      unwrap_or raw.name (codes "?")
      ++ (codes ": "
          ++ unwrap_or (raw.input >>= λ v. some (truncate_chars (serde.to_string v) 120)) [])
  summary_of tool_result raw =
      unwrap_or (extract_tool_result_summary raw.message) (codes "(tool_result)")
  summary_of (other t) raw = []

  unfoldable pub event_of : RawEvent → Option TailEvent
  unfolding kind_of summary_of truncate_chars
  event_of raw = raw.type_ >>= λ t. some (record {
    kind = kind_of t;
    tool_use_id = or_else raw.tool_use_id raw.tool_use_id_camel;
    tool_name = raw.name;
    summary = truncate_chars (summary_of (kind_of t) raw) 240;
    timestamp = raw.timestamp;
  })

  unfoldable pub parse_event : Text → Option TailEvent
  unfolding event_of
  parse_event line = serde.raw_event line >>= event_of

  -- A file that cannot be opened is `none`.
  unfoldable pub read_tail_events : Option Text → ℕ → List TailEvent
  unfolding filter_map parse_event read_lines
  read_tail_events none limit = []
  read_tail_events (some file) limit = filter_map parse_event (last_n limit (read_lines file))
