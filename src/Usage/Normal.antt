-- ===== src/Usage/Normal.antt =====
-- The usage parsers of crates/ostk-cache-core/src/usage.rs read the same numbers as those of
-- src/provider_policy.rs, which keep a provider's own count of its input.
use ostk_cache.Prelude.{ℕ, ◌-◌, ◌≡◌, Option, none, some, arith}
use ostk_cache.Json.{Value, get, get_u64}
use ostk_cache.Usage.{ProviderUsage, anthropic_usage_of, openai_usage_from_value}
use ostk_cache.ProviderPolicy.{UsageSnapshot, anthropic_usage, gpt_usage}

-- A snapshot whose input includes what is cached, with that taken off.
abbrev pub uncached : UsageSnapshot → ProviderUsage
uncached s = record {
  input_tokens = s.input_tokens - s.cached_tokens;
  cache_read_tokens = s.cached_tokens;
  cache_create_tokens = s.cache_write_tokens;
}

-- A snapshot whose input leaves out what is cached.
abbrev pub exclusive : UsageSnapshot → ProviderUsage
exclusive s = record {
  input_tokens = s.input_tokens;
  cache_read_tokens = s.cached_tokens;
  cache_create_tokens = s.cache_write_tokens;
}

abbrev pub on_some : (UsageSnapshot → ProviderUsage) → Option UsageSnapshot → Option ProviderUsage
on_some f none = none
on_some f (some s) = some (f s)

-- Of a usage in the Responses shape, with an input number and its details, the parser of the core gives
-- what the GPT policy's snapshot gives with the cached tokens taken off the input.
pub openai-uncached :
    (usage d : Value) (n : ℕ)
    → get_u64 "input_tokens" usage ≡ some n
    → get "input_tokens_details" usage ≡ some d
    → openai_usage_from_value usage ≡ on_some uncached (gpt_usage usage)
unfolding openai_usage_from_value gpt_usage get_u64
openai-uncached usage d n e h = ground arith

-- Of a usage with an input number, the parser of the core gives what the Anthropic policy's snapshot
-- gives with nothing taken off.
pub anthropic-exclusive :
    (usage : Value) (n : ℕ)
    → get_u64 "input_tokens" usage ≡ some n
    → some (anthropic_usage_of usage) ≡ on_some exclusive (anthropic_usage usage)
unfolding anthropic_usage_of anthropic_usage
anthropic-exclusive usage n e = ground arith
