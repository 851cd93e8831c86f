-- ===== src/Usage/Tests.antt =====
-- Runs of crates/ostk-cache-core/src/usage.rs, with a parser that knows one event.
use ostk_cache.Prelude.Lines.{lines, split_inclusive, strip_eol, strip_prefix, trim_end_byte}
use ostk_cache.Prelude.Utf8.{valid_utf8, valid_from, next_byte, first_byte}
use ostk_cache.Prelude.LineEnds.{to_crlf}
use ostk_cache.Prelude.{◌≡◌, refl, true, [], ◌∷◌, ◌++◌, some, Text, codes, eqb, starts_with}
use ostk_cache.Json.{Value, num, object, entry, end, get, get_u64}
use ostk_cache.UsageTruth.{Serde}
use ostk_cache.Usage.{
  anthropic, parse_usage, parse_anthropic_usage_from_sse, sse_lines, sse_line, data_line, counts,
  count_usage,
}
use ostk_cache.Usage.LineEnds.{parse_usage-crlf}

abbrev details : Value
details = object (entry "cached_tokens" (num 60) end)

abbrev usage : Value
usage = object (entry "input_tokens" (num 100) (entry "input_tokens_details" details end))

abbrev serde : Serde
serde = record {
  from_str = λ t. some (object (entry "usage" usage end));
  to_string = λ v. codes "{}";
}

abbrev lf : Text
lf = 10 ∷ []

abbrev stream : Text
stream = codes "event: message_start" ++ (lf ++ (codes "data: {}" ++ (lf ++ lf)))

stream_read :
    parse_usage serde anthropic true stream
    ≡ some (record { input_tokens = 100; cache_read_tokens = 0; cache_create_tokens = 0 })
unfolding parse_usage parse_anthropic_usage_from_sse sse_lines sse_line data_line counts count_usage
    lines split_inclusive strip_eol strip_prefix trim_end_byte valid_utf8 valid_from next_byte
    first_byte eqb starts_with get get_u64
stream_read = refl

usage_input : get_u64 "input_tokens" usage ≡ some 100
unfolding get_u64
usage_input = refl

usage-details : get "input_tokens_details" usage ≡ some details
unfolding get
usage-details = refl

parse_usage-crlf_example :
    parse_usage serde anthropic true (to_crlf stream) ≡ parse_usage serde anthropic true stream
parse_usage-crlf_example = parse_usage-crlf serde anthropic stream
