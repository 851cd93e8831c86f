-- ===== src/Config/Tests.antt =====
-- Runs of the resolution.
use ostk_cache.Prelude.{ℕ, ◌≡◌, refl, false, [], none, some, codes, if◌then◌else◌}
use text.Mathlib.Text.{◌==◌ as str_eq}
use ostk_cache.ProviderPolicy.{anthropic}
use ostk_cache.Config.{Environment, Source, passthrough}
use ostk_cache.Config.Settings.{CliArgs, Defaults}
use ostk_cache.Config.Resolve.{resolve, resolve_port, resolve_mode}
use ostk_cache.Config.Laws.{with_var, resolve_anthropic}

abbrev defaults : Defaults
defaults = record {
  Float = ℕ;
  parse_float = λ s. none;
  bytes_per_token = 16;
  compact = 0;
  claude_projects_dir = codes "./.claude/projects";
  capture_dir = codes "/tmp/ostk-cache/http-capture";
}

abbrev no_args : CliArgs ℕ
no_args = record {
  port = none;
  upstream = none;
  provider = none;
  mode = none;
  tail_transcript = false;
  no_tail_transcript = false;
  tail_limit = none;
  claude_projects_dir = none;
  ostk_dir = none;
  kernel_socket = none;
  kernel_timeout_ms = none;
  no_rewrite = false;
  soft_cap_mb = none;
  no_soft_cap = false;
  body_limit_mb = none;
  overflow_mb = none;
  usage_truth = false;
  usage_truth_session = [];
  truth_bytes_per_token = none;
  capture_http = false;
  capture_http_dir = none;
  capture_max_entries = none;
  write_policy = false;
  policy_compact = none;
  policy_min_prefix = none;
  policy_cold_cap = none;
  verbose = false;
}

-- A port that is one too large for its type, and both of the older mode variables.
abbrev vars : Environment
vars k =
    if str_eq k "PROXY_PORT"
    then some (codes "65616")
    else if str_eq k "OSTK_CACHE_PASSTHROUGH"
    then some (codes " TRUE")
    else if str_eq k "OSTK_CACHE_REBUILD"
    then some (codes "kernel")
    else none

port_wraps : resolve_port defaults vars no_args none ≡ record { value = 80; source = Source.env }
unfolding resolve_port
port_wraps = refl

passthrough_wins :
    resolve_mode defaults vars no_args none ≡ record { value = passthrough; source = Source.env }
unfolding resolve_mode
passthrough_wins = refl

is_anthropic : (resolve defaults vars no_args none).provider.value ≡ anthropic
unfolding resolve
is_anthropic = refl

resolve_anthropic_example :
    resolve defaults (with_var "OPENAI_BASE_URL" (some (codes "x")) vars) no_args none
    ≡ resolve defaults vars no_args none
resolve_anthropic_example =
    resolve_anthropic defaults vars no_args none (some (codes "x")) is_anthropic
