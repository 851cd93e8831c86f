-- ===== src/TranscriptTail/Codex.antt =====
-- The codex half of src/transcript_tail.rs: rollouts, their identity, and their events. The walk over
-- the directories gives files in some order, each with its first line parsed into `MetaProbe` where
-- serde could; that parser and the one of an event's line are parameters.
pub mod Own
use ostk_cache.Prelude.{
  ℕ, ◌-◌, Bool, true, false, ◌&&◌, List, [], ◌∷◌, ◌++◌, Option, none, some, Text, codes, eqb, leb,
  ◌==◌, starts_with, if◌then◌else◌, ◌>>=◌, unwrap_or, length, drop, is_some,
}
use ostk_cache.Prelude.Chars.{is_continuation}
use ostk_cache.Json.{Value, get_str}
use ostk_cache.Size.{decimal}
use ostk_cache.TranscriptTail.{truncate_chars}
use ostk_cache.TranscriptTail.Index.{text_lt}
use ostk_cache.TranscriptTail.Events.{
  TailEvent, user, assistant, tool_use, tool_result, filter_map, read_lines, last_n,
}

pub record CodexRolloutIdentity : Type 0 where
  pub uuid : Text
  pub cwd : Text

pub record MetaProbe : Type 0 where
  pub type_ : Text
  pub id : Text
  pub cwd : Text

-- A file that the walk finds: its name, and the probe of its first line.
pub record Rollout : Type 0 where
  pub path : Text
  pub file_name : Text
  pub first_line : Option MetaProbe

-- `file_stem`: the name without what follows its last dot, where that is not its first byte.
unfoldable pub stem_from : Text → Option Text
stem_from [] = none
stem_from (c ∷ s) = elim (stem_from s) [
  | some t ↦ some (c ∷ t)
  | none ↦ if c == b'.' then some [] else none
]

unfoldable pub file_stem : Text → Text
unfolding stem_from
file_stem [] = []
file_stem (c ∷ s) = elim (stem_from s) [ some t ↦ c ∷ t | none ↦ c ∷ s ]

abbrev starts_char : Text → Bool
starts_char [] = true
starts_char (c ∷ s) = if is_continuation c then false else true

-- `stem.get(stem.len().checked_sub(36)?..)?`
unfoldable pub last_36 : Text → Option Text
unfolding is_continuation
last_36 s =
    if leb 36 (length s)
    then (let t = drop (length s - 36) s in if starts_char t then some t else none)
    else none

unfoldable pub codex_rollout_identity : Rollout → Option CodexRolloutIdentity
unfolding file_stem last_36 eqb
codex_rollout_identity r = r.first_line >>= λ probe.
    if eqb probe.type_ (codes "session_meta")
    then (last_36 (file_stem r.file_name) >>= λ fname_uuid.
        if eqb fname_uuid probe.id
        then some (record { uuid = probe.id; cwd = probe.cwd })
        else none)
    else none

unfoldable pub ends_with : Text → Text → Bool
ends_with suffix s =
    leb (length suffix) (length s) && eqb (drop (length s - length suffix) s) suffix

unfoldable pub is_rollout_name : Text → Bool
unfolding starts_with ends_with eqb
is_rollout_name n = starts_with (codes "rollout-") n && ends_with (codes ".jsonl") n

unfoldable pub belongs : Text → Rollout → Bool
unfolding is_rollout_name codex_rollout_identity eqb
belongs workspace r =
    is_rollout_name r.file_name
    && (elim (codex_rollout_identity r) [ none ↦ false | some id ↦ eqb id.cwd workspace ])

-- The first of the files once they are sorted by name, the greatest first; of files with one name
-- the sort keeps the order, so the first of them.
unfoldable pub better : Rollout → Option Rollout → Option Rollout
unfolding text_lt
better r none = some r
better r (some best) = if text_lt r.file_name best.file_name then some best else some r

unfoldable pub latest : List Rollout → Option Rollout
unfolding better
latest [] = none
latest (r ∷ rs) = better r (latest rs)

unfoldable pub matching : Text → List Rollout → List Rollout
unfolding belongs
matching workspace [] = []
matching workspace (r ∷ rs) =
    let rest = matching workspace rs in if belongs workspace r then r ∷ rest else rest

unfoldable pub locate_codex_rollout : Text → List Rollout → Option Rollout
unfolding matching latest
locate_codex_rollout workspace files = latest (matching workspace files)

pub record RawCodexEvent : Type 0 where
  pub type_ : Text
  pub timestamp : Option Text
  pub payload : Value

unfoldable pub message_event : RawCodexEvent → Text
unfolding get_str
message_event raw = unwrap_or (get_str "message" raw.payload) []

unfoldable pub qualified_name : Option Text → Option Text → Text
qualified_name (some ns) (some n) = ns ++ (codes "::" ++ n)
qualified_name none (some n) = n
qualified_name ns none = codes "?"

unfoldable pub call_event : RawCodexEvent → TailEvent
unfolding qualified_name get_str truncate_chars
call_event raw =
    let qualified = qualified_name (get_str "namespace" raw.payload) (get_str "name" raw.payload) in
    record {
      kind = tool_use;
      tool_use_id = get_str "call_id" raw.payload;
      tool_name = some qualified;
      summary =
          qualified
          ++ (codes ": " ++ truncate_chars (unwrap_or (get_str "arguments" raw.payload) []) 120);
      timestamp = raw.timestamp;
    }

unfoldable pub output_event : RawCodexEvent → TailEvent
unfolding get_str decimal
output_event raw = record {
  kind = tool_result;
  tool_use_id = get_str "call_id" raw.payload;
  tool_name = none;
  summary =
      codes "out:"
      ++ (decimal (elim (get_str "output" raw.payload) [ none ↦ 0 | some o ↦ length o ])
          ++ b'b' ∷ []);
  timestamp = raw.timestamp;
}

unfoldable pub codex_event : RawCodexEvent → Text → Option TailEvent
unfolding message_event call_event output_event eqb
codex_event raw ptype =
    if eqb raw.type_ (codes "event_msg")
    then (if eqb ptype (codes "user_message")
        then some (record {
          kind = user;
          tool_use_id = none;
          tool_name = none;
          summary = message_event raw;
          timestamp = raw.timestamp;
        })
        else if eqb ptype (codes "agent_message")
        then some (record {
          kind = assistant;
          tool_use_id = none;
          tool_name = none;
          summary = message_event raw;
          timestamp = raw.timestamp;
        })
        else none)
    else if eqb raw.type_ (codes "response_item")
    then (if eqb ptype (codes "function_call")
        then some (call_event raw)
        else if eqb ptype (codes "function_call_output")
        then some (output_event raw)
        else none)
    else none

module _ (raw_codex_event : Text → Option RawCodexEvent) where
  unfoldable pub parse_codex_event : Text → Option TailEvent
  unfolding codex_event get_str truncate_chars
  parse_codex_event line = raw_codex_event line >>= λ raw. get_str "type" raw.payload >>= λ ptype.
      codex_event raw ptype >>= λ ev. some (record ev { summary = truncate_chars ev.summary 240 })

  unfoldable pub read_codex_tail_events : Option Text → ℕ → List TailEvent
  unfolding filter_map parse_codex_event read_lines
  read_codex_tail_events none limit = []
  read_codex_tail_events (some file) limit =
      last_n limit (filter_map parse_codex_event (read_lines file))
