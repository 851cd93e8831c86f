-- ===== src/TranscriptTail/Index.antt =====
-- `build_tail_index`, `read_recent_user_messages` and `render_cross_session_summary` of
-- src/transcript_tail.rs.
pub mod Locate
pub mod Latest
use ostk_cache.Prelude.{
  ℕ, ◌+◌, Bool, true, false, not, ◌&&◌, List, [], ◌∷◌, ◌++◌, Option, none, some, Text, codes, eqb,
  ltb, ◌==◌, map, if◌then◌else◌, ◌>>=◌, unwrap_or, length,
}
use ostk_cache.Prelude.Utf8.{trim}
use ostk_cache.Json.{Value, get, get_array, as_bool}
use ostk_cache.TranscriptTail.{truncate_at_word_boundary}
use ostk_cache.TranscriptTail.Events.{
  TailEvent, TailEventKind, user, assistant, tool_use, tool_result, other, RawEvent, Serde,
  extract_message_text, is_tool_result_user_event, parse_event, read_lines, last_n,
}

pub record ToolBodyLocator : Type 0 where
  pub tool_use_id : Text
  pub line_index : ℕ
  pub byte_offset : ℕ
  pub byte_len : ℕ
  pub is_error : Bool
  pub tool_name : Option Text

-- `by_tool_id` is a map as a list of its pairs; the cursor's two numbers are the loop's.
pub record Scan : Type 0 where
  pub events : List TailEvent
  pub user_turns : List Text
  pub by_tool_id : List (Text × ToolBodyLocator)
  pub byte_offset : ℕ
  pub line_index : ℕ

abbrev pub at_start : Scan
at_start = record { events = []; user_turns = []; by_tool_id = []; byte_offset = 0; line_index = 0 }

pub record TailIndex : Type 0 where
  pub events : List TailEvent
  pub user_turns : List Text
  pub by_tool_id : List (Text × ToolBodyLocator)

-- `HashMap::insert`
unfoldable pub insert_locator :
    Text → ToolBodyLocator → List (Text × ToolBodyLocator) → List (Text × ToolBodyLocator)
insert_locator id l [] = (id, l) ∷ []
insert_locator id l ((j, k) ∷ m) = if eqb j id then (id, l) ∷ m else (j, k) ∷ insert_locator id l m

-- An event with no id of a call has no locator.
unfoldable pub insert_found :
    Option Text
    → (Text → ToolBodyLocator)
    → List (Text × ToolBodyLocator)
    → List (Text × ToolBodyLocator)
unfolding insert_locator
insert_found none l m = m
insert_found (some id) l m = insert_locator id (l id) m

unfoldable pub not_blank : Text → List Text
unfolding trim
not_blank t = elim (trim t) [ [] ↦ [] | c ∷ s ↦ (c ∷ s) ∷ [] ]

unfoldable pub is_user : TailEventKind → Bool
is_user user = true
is_user assistant = false
is_user tool_use = false
is_user tool_result = false
is_user (other t) = false

unfoldable pub result_id : TailEventKind → Option Text → Option Text
result_id tool_result id = id
result_id user id = none
result_id assistant id = none
result_id tool_use id = none
result_id (other t) id = none

-- `pop`
unfoldable pub but_last : List Text → List Text
but_last [] = []
but_last (t ∷ []) = []
but_last (t ∷ u ∷ ts) = t ∷ but_last (u ∷ ts)

unfoldable pub find_error : List Value → Bool
unfolding get
find_error [] = false
find_error (b ∷ bs) = elim (get "is_error" b >>= as_bool) [ some e ↦ e | none ↦ find_error bs ]

module _ (serde : Serde) where
  -- The whole text of a user's line.
  unfoldable pub turn_of : Text → List Text
  unfolding get extract_message_text not_blank
  turn_of line = elim (serde.from_str line >>= λ v. extract_message_text (get "message" v)) [
    | none ↦ []
    | some text ↦ not_blank text
  ]

  unfoldable pub is_error_of : Text → Bool
  unfolding get get_array find_error
  is_error_of line =
      elim (serde.from_str line >>= λ v. get "message" v >>= λ m. get_array "content" m) [
        | none ↦ false
        | some arr ↦ find_error arr
      ]

  unfoldable pub locator : Text → Scan → TailEvent → Text → ToolBodyLocator
  unfolding is_error_of
  locator line s ev id = record {
    tool_use_id = id;
    line_index = s.line_index;
    byte_offset = s.byte_offset;
    byte_len = length line;
    is_error = is_error_of line;
    tool_name = ev.tool_name;
  }

  unfoldable pub note_event : Text → TailEvent → Scan → Scan
  unfolding turn_of locator is_user result_id insert_found
  note_event line ev s = record s {
    events = s.events ++ ev ∷ [];
    user_turns = s.user_turns ++ (if is_user ev.kind then turn_of line else []);
    by_tool_id = insert_found (result_id ev.kind ev.tool_use_id) (locator line s ev) s.by_tool_id;
  }

  unfoldable pub noted : Text → Option TailEvent → Scan → Scan
  unfolding note_event
  noted line none s = s
  noted line (some ev) s = note_event line ev s

  -- One round of the loop, and the cursor behind the line and its newline.
  unfoldable pub scan_line : Text → Scan → Scan
  unfolding parse_event noted
  scan_line line s =
      let s' = noted line (parse_event serde line) s in
      record s' { byte_offset = s'.byte_offset + (length line + 1); line_index = s'.line_index + 1 }

  unfoldable pub scan_lines : List Text → Scan → Scan
  unfolding scan_line
  scan_lines [] s = s
  scan_lines (line ∷ ls) s = scan_lines ls (scan_line line s)

  unfoldable pub build_tail_index : Option Text → ℕ → TailIndex
  unfolding scan_lines read_lines
  build_tail_index none limit = record { events = []; user_turns = []; by_tool_id = [] }
  build_tail_index (some file) limit =
      let s = scan_lines (read_lines file) at_start in
      record {
        events = last_n limit s.events;
        user_turns = s.user_turns;
        by_tool_id = s.by_tool_id;
      }

  unfoldable pub user_text : Text → List Text
  unfolding is_tool_result_user_event extract_message_text not_blank eqb
  user_text line = elim (serde.raw_event line) [
    | none ↦ []
    | some raw ↦
        if unwrap_or (raw.type_ >>= λ t. some (eqb t (codes "user"))) false
          && not (is_tool_result_user_event raw.message)
        then (elim (extract_message_text raw.message) [ none ↦ [] | some t ↦ not_blank t ])
        else []
  ]

  unfoldable pub user_texts : List Text → List Text
  unfolding user_text
  user_texts [] = []
  user_texts (l ∷ ls) = user_text l ++ user_texts ls

  unfoldable pub read_recent_user_messages : Option Text → ℕ → List Text
  unfolding user_texts but_last truncate_at_word_boundary read_lines
  read_recent_user_messages none per_msg_chars = []
  read_recent_user_messages (some file) per_msg_chars =
      map (λ t. truncate_at_word_boundary t per_msg_chars) (but_last (user_texts (read_lines file)))

-- The order of texts, by bytes.
unfoldable pub text_lt : Text → Text → Bool
text_lt s [] = false
text_lt [] (y ∷ t) = true
text_lt (x ∷ s) (y ∷ t) = if x == y then text_lt s t else ltb x y

unfoldable pub kind_label : TailEventKind → Text
kind_label user = codes "user"
kind_label assistant = codes "asst"
kind_label tool_use = codes "tool"
kind_label tool_result = codes "tres"
kind_label (other s) = s

unfoldable pub render_event : TailEvent → Text
unfolding kind_label
render_event ev =
    codes "- ["
    ++ (unwrap_or ev.timestamp (codes "?")
        ++ (codes "] " ++ (kind_label ev.kind ++ (codes ": " ++ (ev.summary ++ 10 ∷ [])))))

-- An event at the marker or after it is left out.
unfoldable pub is_before : Option Text → Option Text → Bool
unfolding text_lt
is_before none ts = true
is_before (some marker) none = true
is_before (some marker) (some ts) = text_lt ts marker

unfoldable pub render_events : Option Text → List TailEvent → Text
unfolding is_before render_event
render_events marker [] = []
render_events marker (ev ∷ evs) =
    (if is_before marker ev.timestamp then render_event ev else []) ++ render_events marker evs

unfoldable pub count_before : Option Text → List TailEvent → ℕ
unfolding is_before
count_before marker [] = 0
count_before marker (ev ∷ evs) =
    (if is_before marker ev.timestamp then 1 else 0) + count_before marker evs

abbrev pub summary_header : Text
summary_header = codes "## Cross-session activity (from harness transcript)" ++ 10 ∷ 10 ∷ []

unfoldable pub render_cross_session_summary : List TailEvent → Option Text → Option Text
unfolding render_events count_before
render_cross_session_summary events marker =
    if count_before marker events == 0
    then none
    else some (summary_header ++ render_events marker events)
