-- ===== src/ProviderPolicy.antt =====
-- src/provider_policy.rs: what the cache policy writes on the wire of each provider. The trait is the
-- record PolicyBackend, its three instances are records. Provider is of src/config.rs.
pub mod Upstream
pub mod Wires
mod Tests
use ostk_cache.Prelude.{
  ℕ, ◌+◌, Bool, true, false, ◌&&◌, ◌||◌, List, [], ◌∷◌, ◌++◌, Option, none, some, String, Text,
  codes, eqb, leb, ◌==◌, if◌then◌else◌, ◌>>=◌, unwrap_or, map,
}
use ostk_cache.Json.{Value, get, get_u64, as_u64}
use ostk_cache.ReminderStrip.{find}
use ostk_cache.WritePolicy.{
  F64, Params, TtlTier, ephemeral_5m, ephemeral_1h, wire_str, LaneState, PolicyDecision, decide,
}

pub data Provider : Type 0 where
  anthropic gpt : Provider

pub record UsageSnapshot : Type 0 where
  pub input_tokens : ℕ
  pub cached_tokens : ℕ
  pub cache_write_tokens : ℕ
  pub output_tokens : ℕ

pub data GptWire : Type 0 where
  chat_gpt platform : GptWire

pub record PolicyBackend (Float : Type 0) : Type 0 where
  pub name : String
  pub judge : LaneState → ℕ → ℕ → Params Float → LaneState × PolicyDecision
  pub tier_wire : TtlTier → Option String
  pub retention_wire : TtlTier → Option String
  pub cache_key : Option Text → Text → Text → Option Text
  pub parse_usage : Value → Option UsageSnapshot

abbrev number : String → Value → ℕ
number k usage = unwrap_or (get_u64 k usage) 0

unfoldable pub anthropic_usage : Value → Option UsageSnapshot
anthropic_usage usage = do
  input ← get_u64 "input_tokens" usage
  some (record {
    input_tokens = input;
    cached_tokens = number "cache_read_input_tokens" usage;
    cache_write_tokens = number "cache_creation_input_tokens" usage;
    output_tokens = number "output_tokens" usage;
  })

-- `pointer("/<details>/cached_tokens")`
abbrev cached : String → Value → ℕ
cached details usage = unwrap_or (get details usage >>= get_u64 "cached_tokens") 0

-- The chat-completions shape.
chat_usage : Value → Option UsageSnapshot
chat_usage usage = do
  input ← get_u64 "prompt_tokens" usage
  some (record {
    input_tokens = input;
    cached_tokens = cached "prompt_tokens_details" usage;
    cache_write_tokens = 0;
    output_tokens = number "completion_tokens" usage;
  })

unfoldable pub gpt_usage : Value → Option UsageSnapshot
unfolding chat_usage
gpt_usage usage = elim (get_u64 "input_tokens" usage) [
  | some input ↦ some (record {
    input_tokens = input;
    cached_tokens = cached "input_tokens_details" usage;
    cache_write_tokens = 0;
    output_tokens = number "output_tokens" usage;
  })
  | none ↦ chat_usage usage
]

unfoldable pub gpt_retention : GptWire → TtlTier → Option String
gpt_retention chat_gpt tier = none
gpt_retention platform ephemeral_5m = some "in_memory"
gpt_retention platform ephemeral_1h = some "24h"

-- A client's own key wins where it is not empty.
unfoldable pub gpt_cache_key : Option Text → Text → Text → Option Text
gpt_cache_key (some (c ∷ k)) session_id model = some (c ∷ k)
gpt_cache_key _ session_id model = some (codes "ostk:" ++ (session_id ++ (b':' ∷ model)))

-- What stands before the first byte, or the whole text.
unfoldable pub before_byte : ℕ → Text → Text
before_byte b [] = []
before_byte b (c ∷ s) = let rest = before_byte b s in if c == b then [] else c ∷ rest

unfoldable pub has_byte : ℕ → Text → Bool
has_byte b [] = false
has_byte b (c ∷ s) = c == b || has_byte b s

-- What stands after the last byte, or the whole text.
unfoldable pub after_last : ℕ → Text → Text
unfolding has_byte
after_last b [] = []
after_last b (c ∷ s) =
    let rest = after_last b s in if has_byte b s then rest else if c == b then s else c ∷ s

abbrev pub scheme_end : Text
scheme_end = codes "://"

-- `split("://").nth(1).unwrap_or(upstream)`
unfoldable pub after_scheme : Text → Text
after_scheme upstream = elim (find scheme_end upstream) [
  | none ↦ upstream
  | some (scheme, rest) ↦ elim (find scheme_end rest) [
    | none ↦ rest
    | some (before, after) ↦ before
  ]
]

unfoldable pub to_ascii_lowercase : ℕ → ℕ
to_ascii_lowercase c = if leb b'A' c && leb c b'Z' then c + 32 else c

unfoldable pub eq_ignore_ascii_case : Text → Text → Bool
unfolding to_ascii_lowercase
eq_ignore_ascii_case a b = eqb (map to_ascii_lowercase a) (map to_ascii_lowercase b)

unfoldable pub host_of : Text → Text
unfolding after_scheme before_byte after_last
host_of upstream = before_byte b':' (after_last b'@' (before_byte b'/' (after_scheme upstream)))

unfoldable pub is_platform_upstream : Text → Bool
unfolding host_of eq_ignore_ascii_case
is_platform_upstream upstream = eq_ignore_ascii_case (host_of upstream) (codes "api.openai.com")

module _ (F : F64) where
  unfoldable pub anthropic_policy : PolicyBackend F.Float
  unfolding anthropic_usage
  anthropic_policy = record {
    name = "anthropic";
    judge = decide F;
    tier_wire = λ tier. some (wire_str tier);
    retention_wire = λ tier. none;
    cache_key = λ client_key session_id model. none;
    parse_usage = anthropic_usage;
  }

  unfoldable pub gpt_policy : GptWire → PolicyBackend F.Float
  unfolding gpt_retention gpt_cache_key gpt_usage
  gpt_policy wire = record {
    name = "gpt";
    judge = decide F;
    tier_wire = λ tier. none;
    retention_wire = gpt_retention wire;
    cache_key = gpt_cache_key;
    parse_usage = gpt_usage;
  }

  unfoldable pub backend_for : Provider → Text → PolicyBackend F.Float
  unfolding is_platform_upstream anthropic_policy gpt_policy
  backend_for anthropic upstream = anthropic_policy
  backend_for gpt upstream =
      if is_platform_upstream upstream then gpt_policy platform else gpt_policy chat_gpt
