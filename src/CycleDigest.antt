-- ===== src/CycleDigest.antt =====
-- The digests of turns, src/cycle_digest.rs. The file of digests is its bytes, or none where it cannot
-- be opened; serde_json's parser and the derived reader and printer of a row are the record Serde, and
-- the time is an argument. Files that cannot be written are left out.
pub mod Fence
pub mod Rows
mod Tests
use ostk_cache.Prelude.{
  ℕ, ◌+◌, ◌-◌, Bool, true, false, not, ◌||◌, List, [], ◌∷◌, ◌++◌, Option, none, some, Text, codes,
  eqb, starts_with, str_contains, length, drop, take, retain, if◌then◌else◌, ◌>>=◌, unwrap_or,
  or_else,
}
use ostk_cache.Prelude.Chars.{chars, concat}
use ostk_cache.Prelude.Lines.{lines, strip_prefix, trim_end_byte}
use ostk_cache.Prelude.Literals.{utf8}
use ostk_cache.Prelude.Utf8.{trim}
use ostk_cache.Json.{Value, as_str, get, get_str, get_array, has_str}
use ostk_cache.Size.{decimal}
use ostk_cache.ReminderStrip.{find}
use ostk_cache.TranscriptTail.Events.{filter_map, join, last_n, read_lines}

abbrev pub fence_open : Text
fence_open = codes "<turn-digest>"

abbrev pub fence_close : Text
fence_close = codes "</turn-digest>"

pub record CycleDigest : Type 0 where
  pub ts : Text
  pub session : Text
  pub intent : Option Text
  pub outcome : Option Text
  pub artifacts : List Text
  pub narrative : Option Text

pub record Serde : Type 0 where
  pub from_str : Text → Option Value
  pub row : Text → Option CycleDigest
  pub to_string : CycleDigest → Option Text

-- `rfind`: what stands behind the last occurrence of a needle that is not empty.
unfoldable pub find_last : Text → Text → Option Text
unfolding starts_with
find_last needle [] = none
find_last needle (c ∷ s) = elim (find_last needle s) [
  | some after ↦ some after
  | none ↦ if starts_with needle (c ∷ s) then some (drop (length needle) (c ∷ s)) else none
]

unfoldable pub fence_body : Text → Option Text
unfolding find_last find trim
fence_body text = find_last fence_open text >>= λ after.
    find fence_close after >>= λ (json_body, rest). some (trim json_body)

unfoldable pub artifacts_of : Value → List Text
unfolding get_array filter_map
artifacts_of v = elim (get_array "artifacts" v) [ none ↦ [] | some arr ↦ filter_map as_str arr ]

unfoldable pub digest_of : Text → Value → CycleDigest
unfolding get_str artifacts_of
digest_of ts v = record {
  ts = ts;
  session = [];
  intent = get_str "intent" v;
  outcome = get_str "outcome" v;
  artifacts = artifacts_of v;
  narrative = get_str "narrative" v;
}

-- The event that the lines are in, and the text so far.
pub record Sse : Type 0 where
  pub current_event : Option Text
  pub out : Text

unfoldable pub looks_like_sse : Text → Bool
unfolding str_contains
looks_like_sse body = str_contains body (codes "event: ") || str_contains body (codes "\ndata: ")

unfoldable pub delta_text : Value → Text
unfolding get has_str get_str
delta_text v =
    elim (get "delta" v >>= λ d. if has_str "type" "text_delta" d then get_str "text" d else none) [
      | some text ↦ text
      | none ↦ []
    ]

module _ (serde : Serde) where
  unfoldable pub sse_data : Text → Text
  unfolding delta_text
  sse_data rest = elim (serde.from_str rest) [ none ↦ [] | some v ↦ delta_text v ]

  unfoldable pub sse_line : Sse → Text → Sse
  unfolding strip_prefix sse_data eqb
  sse_line s [] = record s { current_event = none }
  sse_line s (c ∷ line) = elim (strip_prefix (codes "event: ") (c ∷ line)) [
    | some event ↦ record s { current_event = some event }
    | none ↦ elim (strip_prefix (codes "data: ") (c ∷ line)) [
      | none ↦ s
      | some rest ↦
          if eqb (unwrap_or s.current_event []) (codes "content_block_delta")
          then record s { out = s.out ++ sse_data rest }
          else s
    ]
  ]

  unfoldable pub sse_lines : Sse → List Text → Sse
  unfolding sse_line trim_end_byte
  sse_lines s [] = s
  sse_lines s (l ∷ ls) = sse_lines (sse_line s (trim_end_byte b'\r' l)) ls

  unfoldable pub extract_assistant_text_from_sse : Text → Text
  unfolding sse_lines lines
  extract_assistant_text_from_sse body =
      let s = sse_lines (record { current_event = none; out = [] }) (lines body) in s.out

  unfoldable pub assistant_text : Text → Text
  unfolding looks_like_sse extract_assistant_text_from_sse
  assistant_text body = if looks_like_sse body then extract_assistant_text_from_sse body else body

  -- By the time of the call.
  unfoldable pub parse_digest : Text → Text → Option CycleDigest
  unfolding assistant_text fence_body digest_of
  parse_digest ts body = fence_body (assistant_text body) >>= λ json_body.
      serde.from_str json_body >>= λ parsed. some (digest_of ts parsed)

  -- The file with the row of a digest behind it.
  unfoldable pub write_digest : Option Text → CycleDigest → Text
  write_digest file digest =
      unwrap_or file [] ++ (unwrap_or (serde.to_string digest) (codes "{}") ++ 10 ∷ [])

  unfoldable pub read_recent_where : Option Text → ℕ → (CycleDigest → Bool) → List CycleDigest
  unfolding filter_map read_lines
  read_recent_where none n pred = []
  read_recent_where (some file) n pred =
      last_n n (retain pred (filter_map serde.row (read_lines file)))

  unfoldable pub read_recent : Option Text → ℕ → List CycleDigest
  unfolding read_recent_where
  read_recent file n = read_recent_where file n (λ _. true)

  unfoldable pub read_recent_for_session : Option Text → Text → ℕ → List CycleDigest
  unfolding read_recent_where eqb
  read_recent_for_session file session n = read_recent_where file n (λ d. eqb d.session session)

  unfoldable pub read_recent_peers : Option Text → Text → ℕ → List CycleDigest
  unfolding read_recent_where eqb
  read_recent_peers file session n = read_recent_where file n (λ d. not (eqb d.session session))

unfoldable pub artifact_list : List Text → Text
unfolding join
artifact_list [] = []
artifact_list (a ∷ more) = codes " [" ++ (join (codes ", ") (a ∷ more) ++ codes "]")

abbrev pub or_text : Text → Text → Text
or_text [] t = t
or_text (c ∷ s) t = c ∷ s

abbrev pub after_blank : Text → Text
after_blank [] = []
after_blank (c ∷ s) = b' ' ∷ c ∷ s

-- The line of a turn: the narrative, or the intent where it is empty, or neither.
unfoldable pub recent_line : ℕ → CycleDigest → Text
unfolding artifact_list decimal
recent_line back d =
    codes "- **[t-"
    ++ (decimal back
        ++ (codes "]** ["
            ++ (unwrap_or d.outcome (codes "?")
                ++ (codes "]"
                    ++ (after_blank (or_text (unwrap_or d.narrative []) (unwrap_or d.intent []))
                        ++ (artifact_list d.artifacts ++ 10 ∷ []))))))

-- The last of the digests is `t-0`.
unfoldable pub recent_lines : List CycleDigest → Text
unfolding recent_line
recent_lines [] = []
recent_lines (d ∷ ds) = recent_line (length ds) d ++ recent_lines ds

unfoldable pub render_recent_section : List CycleDigest → Option Text
unfolding recent_lines
render_recent_section [] = none
render_recent_section (d ∷ ds) =
    some (codes "## Recent assistant turns (digest)\n\n" ++ (recent_lines (d ∷ ds) ++ 10 ∷ []))

unfoldable pub peer_line : CycleDigest → Text
unfolding artifact_list chars concat
peer_line d =
    codes "- **[peer:"
    ++ (or_text (concat (take 8 (chars d.session))) (codes "?")
        ++ (codes "]** ["
            ++ (unwrap_or d.outcome (codes "?")
                ++ (codes "] "
                    ++ (unwrap_or (or_else d.narrative d.intent) []
                        ++ (artifact_list d.artifacts ++ 10 ∷ []))))))

unfoldable pub peer_lines : List CycleDigest → Text
unfolding peer_line
peer_lines [] = []
peer_lines (d ∷ ds) = peer_line d ++ peer_lines ds

unfoldable pub peer_header : Text
unfolding utf8
peer_header = utf8 "## Peer activity (other seats, digest — NOT your turns)\n\n"

unfoldable pub render_peer_section : List CycleDigest → Option Text
unfolding peer_lines peer_header
render_peer_section [] = none
render_peer_section (d ∷ ds) = some (peer_header ++ (peer_lines (d ∷ ds) ++ 10 ∷ []))
