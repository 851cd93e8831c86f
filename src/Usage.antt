-- ===== src/Usage.antt =====
-- crates/ostk-cache-core/src/usage.rs: the usage parsers of both wire dialects. serde_json's parser is
-- a parameter; `u64` sums wrap around.
pub mod Normal
pub mod LineEnds
mod Tests
use ostk_cache.Prelude.Lines.{lines, strip_prefix, trim_end_byte}
use ostk_cache.Prelude.Utf8.{valid_utf8}
use ostk_cache.Prelude.{
  ℕ, ◌+◌, ◌-◌, ◌%◌, ◌^◌, Bool, true, false, ◌||◌, List, [], ◌∷◌, Option, none, some, Text, codes,
  eqb, if◌then◌else◌, ◌>>=◌, unwrap_or, or_else,
}
use ostk_cache.Json.{Value, get, get_u64, as_u64}
use ostk_cache.UsageTruth.{Serde}

pub record ProviderUsage : Type 0 where
  pub input_tokens : ℕ
  pub cache_read_tokens : ℕ
  pub cache_create_tokens : ℕ

pub data UsageDialect : Type 0 where
  anthropic open_ai : UsageDialect

-- The usage object of a JSON answer, read.
unfoldable pub anthropic_usage_of : Value → ProviderUsage
anthropic_usage_of usage = record {
  input_tokens = unwrap_or (get_u64 "input_tokens" usage) 0;
  cache_read_tokens = unwrap_or (get_u64 "cache_read_input_tokens" usage) 0;
  cache_create_tokens = unwrap_or (get_u64 "cache_creation_input_tokens" usage) 0;
}

unfoldable pub openai_usage_from_value : Value → Option ProviderUsage
openai_usage_from_value usage = do
  prompt ← or_else (get "input_tokens" usage) (get "prompt_tokens" usage) >>= as_u64
  let cached =
      unwrap_or
        (or_else (get "input_tokens_details" usage) (get "prompt_tokens_details" usage)
          >>= get_u64 "cached_tokens")
        0
  some (record {
    input_tokens = prompt - cached;
    cache_read_tokens = cached;
    cache_create_tokens = 0;
  })

-- The variables of the loop over an Anthropic stream.
pub record Scan : Type 0 where
  pub current_event : Option Text
  pub input_tokens : ℕ
  pub cache_read : ℕ
  pub cache_create : ℕ
  pub found : Bool

abbrev pub nothing_yet : Scan
nothing_yet = record {
  current_event = none;
  input_tokens = 0;
  cache_read = 0;
  cache_create = 0;
  found = false;
}

-- `if let Some(n) = … { sum += n }`
abbrev plus : ℕ → Option ℕ → ℕ
plus sum none = sum
plus sum (some n) = (sum + n) % 2 ^ 64

unfoldable pub count_usage : Scan → Option Value → Scan
count_usage scan none = scan
count_usage scan (some u) = record scan {
  input_tokens = plus scan.input_tokens (get_u64 "input_tokens" u);
  cache_read = plus scan.cache_read (get_u64 "cache_read_input_tokens" u);
  cache_create = plus scan.cache_create (get_u64 "cache_creation_input_tokens" u);
  found = true;
}

unfoldable pub counts : Option Text → Bool
counts event =
    eqb (unwrap_or event []) (codes "message_start")
    || eqb (unwrap_or event []) (codes "message_delta")

module _ (serde : Serde) where
  unfoldable pub data_line : Scan → Text → Scan
  unfolding counts count_usage
  data_line scan rest =
      if counts scan.current_event
      then elim (serde.from_str rest) [
        | none ↦ scan
        | some v ↦ count_usage scan (or_else (get "usage" v) (get "message" v >>= get "usage"))
      ]
      else scan

  unfoldable pub sse_line : Scan → Text → Scan
  unfolding data_line
  sse_line scan [] = record scan { current_event = none }
  sse_line scan (c ∷ line) = elim (strip_prefix (codes "event: ") (c ∷ line)) [
    | some event ↦ record scan { current_event = some event }
    | none ↦ elim (strip_prefix (codes "data: ") (c ∷ line)) [
      | none ↦ scan
      | some rest ↦ data_line scan rest
    ]
  ]

  unfoldable pub sse_lines : Scan → List Text → Scan
  unfolding sse_line
  sse_lines scan [] = scan
  sse_lines scan (line ∷ rest) = sse_lines (sse_line scan (trim_end_byte 13 line)) rest

  unfoldable pub parse_anthropic_usage_from_json : Text → Option ProviderUsage
  unfolding anthropic_usage_of
  parse_anthropic_usage_from_json body = do
    v ← serde.from_str body
    usage ← get "usage" v
    some (anthropic_usage_of usage)

  unfoldable pub parse_anthropic_usage_from_sse : Text → Option ProviderUsage
  unfolding sse_lines
  parse_anthropic_usage_from_sse body =
      let scan = sse_lines nothing_yet (lines body) in
      if valid_utf8 body
      then (if scan.found
          then some (record {
            input_tokens = scan.input_tokens;
            cache_read_tokens = scan.cache_read;
            cache_create_tokens = scan.cache_create;
          })
          else none)
      else none

  unfoldable pub parse_openai_usage_from_json : Text → Option ProviderUsage
  unfolding openai_usage_from_value
  parse_openai_usage_from_json body = do
    v ← serde.from_str body
    usage ← get "usage" v
    openai_usage_from_value usage

  -- The usage that one line carries.
  unfoldable pub openai_line : Text → Option ProviderUsage
  unfolding openai_usage_from_value
  openai_line line = do
    rest ← strip_prefix (codes "data: ") line
    v ← if eqb rest (codes "[DONE]") then none else serde.from_str rest
    usage ← or_else (get "usage" v) (get "response" v >>= get "usage")
    openai_usage_from_value usage

  unfoldable pub latest_usage : Option ProviderUsage → List Text → Option ProviderUsage
  unfolding openai_line
  latest_usage latest [] = latest
  latest_usage latest (line ∷ rest) =
      latest_usage (or_else (openai_line (trim_end_byte 13 line)) latest) rest

  unfoldable pub parse_openai_usage_from_sse : Text → Option ProviderUsage
  unfolding latest_usage
  parse_openai_usage_from_sse body =
      if valid_utf8 body then latest_usage none (lines body) else none

  unfoldable pub parse_usage : UsageDialect → Bool → Text → Option ProviderUsage
  unfolding parse_anthropic_usage_from_json parse_anthropic_usage_from_sse
      parse_openai_usage_from_json parse_openai_usage_from_sse
  parse_usage anthropic false body = parse_anthropic_usage_from_json body
  parse_usage anthropic true body = parse_anthropic_usage_from_sse body
  parse_usage open_ai false body = parse_openai_usage_from_json body
  parse_usage open_ai true body = parse_openai_usage_from_sse body
