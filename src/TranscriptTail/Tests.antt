-- ===== src/TranscriptTail/Tests.antt =====
-- Runs of the readers of src/transcript_tail.rs on a small transcript.
use ostk_cache.Prelude.{
  ◌≡◌, refl, true, false, List, [], ◌∷◌, Option, none, some, Text, codes, eqb, if◌then◌else◌, All,
}
use ostk_cache.Prelude.Utf8.{valid_utf8}
use ostk_cache.TranscriptTail.Events.{RawEvent, Serde, parse_event, read_lines, read_tail_events}
use ostk_cache.TranscriptTail.Written.{unlines, IsLine}
use ostk_cache.TranscriptTail.Index.{build_tail_index}
use ostk_cache.TranscriptTail.Index.Locate.{AllLocate, HasKeys, index_locates}
use ostk_cache.TranscriptTail.Index.Latest.{AllParse, index_events}
use ostk_cache.TranscriptTail.Codex.{Rollout, locate_codex_rollout}
use ostk_cache.TranscriptTail.Codex.Own.{Found, locate-Found}

abbrev raw : Text → Option Text → RawEvent
raw kind id = record {
  type_ = some kind;
  timestamp = none;
  message = none;
  tool_use_id_camel = id;
  tool_use_id = none;
  name = none;
  input = none;
}

-- A parser that reads `r` as the result of call `a`, and every other line as a user event.
abbrev small_raw_event : Text → Option RawEvent
small_raw_event line =
    if eqb line (codes "r")
    then some (raw (codes "tool_result") (some (codes "a")))
    else some (raw (codes "user") none)

abbrev small : Serde
small = record { raw_event = small_raw_event; from_str = λ s. none; to_string = λ v. [] }

abbrev transcript : List Text
transcript = codes "hi" ∷ codes "r" ∷ []

transcript-IsLine : All IsLine transcript
transcript-IsLine = ((refl, (refl, refl)), ((refl, refl), tt))

transcript-valid_utf8 : All (λ l. valid_utf8 l ≡ true) transcript
unfolding valid_utf8
transcript-valid_utf8 = (refl, (refl, tt))

index_locates_example :
    AllLocate small transcript (build_tail_index small (some (unlines transcript)) 5).by_tool_id
    × HasKeys small transcript (build_tail_index small (some (unlines transcript)) 5).by_tool_id
index_locates_example = index_locates small transcript 5 transcript-IsLine transcript-valid_utf8

answer_locator :
    (build_tail_index small (some (unlines transcript)) 5).by_tool_id
    ≡ (
      codes "a",
      record {
        tool_use_id = codes "a";
        line_index = 1;
        byte_offset = 3;
        byte_len = 1;
        is_error = false;
        tool_name = none;
      },
    )
      ∷ []
unfolding build_tail_index unlines read_lines
answer_locator = refl

transcript-AllParse : AllParse small (read_lines (unlines transcript))
unfolding read_lines unlines parse_event
transcript-AllParse = ((_, refl), ((_, refl), tt))

index_events_example :
    (build_tail_index small (some (unlines transcript)) 5).events
    ≡ read_tail_events small (some (unlines transcript)) 5
index_events_example = index_events small (unlines transcript) 5 transcript-AllParse

abbrev uuid : Text
uuid = codes "0190c0de-0000-7000-8000-0000000000aa"

abbrev rollout_in : Text → Rollout
rollout_in cwd = record {
  path = codes "/r";
  file_name = codes "rollout-0190c0de-0000-7000-8000-0000000000aa.jsonl";
  first_line = some (record { type_ = codes "session_meta"; id = uuid; cwd = cwd });
}

rollout_found :
    locate_codex_rollout (codes "/w") (rollout_in (codes "/other") ∷ rollout_in (codes "/w") ∷ [])
    ≡ some (rollout_in (codes "/w"))
unfolding locate_codex_rollout
rollout_found = refl

locate-Found_example :
    Found (codes "/w") (rollout_in (codes "/other") ∷ rollout_in (codes "/w") ∷ []) (
      locate_codex_rollout
        (codes "/w")
        (rollout_in (codes "/other") ∷ rollout_in (codes "/w") ∷ []))
locate-Found_example =
    locate-Found (codes "/w") (rollout_in (codes "/other") ∷ rollout_in (codes "/w") ∷ [])
