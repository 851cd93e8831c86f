-- ===== src/Config/Resolve.antt =====
-- `Config::resolve` of src/config.rs, one definition for each of its bindings.
use ostk_cache.Prelude.{
  ℕ, ◌%◌, Bool, true, false, List, [], ◌∷◌, Option, none, some, Text, if◌then◌else◌, ◌>>=◌,
}
use ostk_cache.ProviderPolicy.{Provider, anthropic}
use ostk_cache.Config.{
  Mode, mutate, Resolved, pick_value, pick_value_opt, Environment, env_str, env_truthy, env_num,
  normal, provider_of, mode_from_env, upstream_env, upstream_default, sessions_of,
}
use ostk_cache.Config.Settings.{CliArgs, FileConfig, Config, Defaults}

-- A flag that only turns on.
abbrev pub flag : Bool → Option Bool
flag true = some true
flag false = none

-- The file where it was read: `file.and_then(…)`.
abbrev pub field {ℓ} : {A : Type ℓ} {F : Type 0} → Option F → (F → Option A) → Option A
field none f = none
field (some c) f = f c

abbrev pub default_port : ℕ
default_port = 8080

abbrev pub default_tail_limit : ℕ
default_tail_limit = 50

abbrev pub default_kernel_timeout_ms : ℕ
default_kernel_timeout_ms = 500

abbrev pub default_soft_cap_mb : ℕ
default_soft_cap_mb = 30

abbrev pub default_body_limit_mb : ℕ
default_body_limit_mb = 30

abbrev pub default_overflow_mb : ℕ
default_overflow_mb = 24

abbrev pub default_capture_max_entries : ℕ
default_capture_max_entries = 5000

abbrev pub sessions_cli : List Text → Option (List Text)
sessions_cli [] = none
sessions_cli (s ∷ ss) = some (s ∷ ss)

module _ (D : Defaults) (vars : Environment) (cli : CliArgs D.Float)
    (file : Option (FileConfig D.Float)) where
  unfoldable pub resolve_port : Resolved ℕ
  unfolding pick_value env_num
  resolve_port =
      pick_value cli.port (env_num vars "PROXY_PORT" >>= λ n. some (n % 65536))
        (field file (λ f. f.port)) default_port

  unfoldable pub resolve_provider : Resolved Provider
  unfolding pick_value env_str normal provider_of
  resolve_provider =
      pick_value cli.provider (env_str vars "OSTK_PROVIDER" >>= λ v. provider_of (normal v))
        (field file (λ f. f.provider)) anthropic

  unfoldable pub resolve_upstream : Resolved Text
  unfolding pick_value upstream_env resolve_provider
  resolve_upstream =
      pick_value cli.upstream (upstream_env vars resolve_provider.value)
        (field file (λ f. f.upstream)) (upstream_default resolve_provider.value)

  unfoldable pub resolve_mode : Resolved Mode
  unfolding pick_value mode_from_env
  resolve_mode = pick_value cli.mode (mode_from_env vars) (field file (λ f. f.mode)) mutate

  unfoldable pub resolve_tail : Resolved Bool
  unfolding pick_value env_truthy
  resolve_tail =
      pick_value
        (if cli.no_tail_transcript
          then some false
          else if cli.tail_transcript
          then some true
          else none)
        (env_truthy vars "OSTK_CACHE_TAIL_TRANSCRIPT") (field file (λ f. f.tail.transcript)) true

  unfoldable pub resolve_soft_cap : Resolved ℕ
  unfolding pick_value
  resolve_soft_cap =
      pick_value (if cli.no_soft_cap then some 0 else cli.soft_cap_mb) none
        (field file (λ f. f.soft_cap_mb)) default_soft_cap_mb

  unfoldable pub resolve_sessions : Resolved (List Text)
  unfolding pick_value env_str sessions_of
  resolve_sessions =
      pick_value (sessions_cli cli.usage_truth_session)
        (env_str vars "OSTK_CACHE_USAGE_TRUTH_SESSIONS" >>= λ s. some (sessions_of s))
        (field file (λ f. f.truth.sessions)) []

  unfoldable pub resolve_tail_limit : Resolved ℕ
  unfolding pick_value env_num
  resolve_tail_limit =
      pick_value cli.tail_limit (env_num vars "OSTK_CACHE_TAIL_LIMIT")
        (field file (λ f. f.tail.limit)) default_tail_limit

  unfoldable pub resolve_claude_projects_dir : Resolved Text
  unfolding pick_value env_str
  resolve_claude_projects_dir =
      pick_value cli.claude_projects_dir (env_str vars "OSTK_CACHE_CLAUDE_PROJECTS_DIR")
        (field file (λ f. f.tail.claude_projects_dir)) D.claude_projects_dir

  unfoldable pub resolve_rewrite_enabled : Resolved Bool
  unfolding pick_value env_truthy
  resolve_rewrite_enabled =
      pick_value (if cli.no_rewrite then some false else none)
        (env_truthy vars "OSTK_REWRITE_ENABLED") (field file (λ f. f.rewrite.enabled)) true

  unfoldable pub resolve_ostk_dir : Resolved (Option Text)
  unfolding pick_value_opt env_str
  resolve_ostk_dir =
      pick_value_opt cli.ostk_dir (env_str vars "OSTK_DIR") (field file (λ f. f.rewrite.ostk_dir))

  unfoldable pub resolve_kernel_socket : Resolved (Option Text)
  unfolding pick_value_opt env_str
  resolve_kernel_socket =
      pick_value_opt cli.kernel_socket (env_str vars "OSTK_KERNEL_SOCKET")
        (field file (λ f. f.kernel.socket))

  unfoldable pub resolve_kernel_timeout_ms : Resolved ℕ
  unfolding pick_value env_num
  resolve_kernel_timeout_ms =
      pick_value cli.kernel_timeout_ms (env_num vars "OSTK_CACHE_KERNEL_TIMEOUT_MS")
        (field file (λ f. f.kernel.timeout_ms)) default_kernel_timeout_ms

  unfoldable pub resolve_body_limit_mb : Resolved ℕ
  unfolding pick_value env_num
  resolve_body_limit_mb =
      pick_value cli.body_limit_mb (env_num vars "OSTK_CACHE_BODY_LIMIT_MB")
        (field file (λ f. f.body_limit_mb)) default_body_limit_mb

  unfoldable pub resolve_overflow_mb : Resolved ℕ
  unfolding pick_value env_num
  resolve_overflow_mb =
      pick_value cli.overflow_mb (env_num vars "OSTK_CACHE_OVERFLOW_MB")
        (field file (λ f. f.overflow_mb)) default_overflow_mb

  unfoldable pub resolve_usage_truth : Resolved Bool
  unfolding pick_value env_truthy
  resolve_usage_truth =
      pick_value (flag cli.usage_truth) (env_truthy vars "OSTK_CACHE_USAGE_TRUTH")
        (field file (λ f. f.truth.enabled)) false

  unfoldable pub resolve_truth_bytes_per_token : Resolved D.Float
  unfolding pick_value env_str
  resolve_truth_bytes_per_token =
      pick_value cli.truth_bytes_per_token
        (env_str vars "OSTK_CACHE_TRUTH_BYTES_PER_TOKEN" >>= λ s. D.parse_float s)
        (field file (λ f. f.truth.bytes_per_token)) D.bytes_per_token

  unfoldable pub resolve_capture_http : Resolved Bool
  unfolding pick_value env_truthy
  resolve_capture_http =
      pick_value (flag cli.capture_http) (env_truthy vars "OSTK_CAPTURE_HTTP")
        (field file (λ f. f.capture.http)) false

  unfoldable pub resolve_capture_http_dir : Resolved Text
  unfolding pick_value env_str
  resolve_capture_http_dir =
      pick_value cli.capture_http_dir (env_str vars "OSTK_CAPTURE_HTTP_DIR")
        (field file (λ f. f.capture.dir)) D.capture_dir

  unfoldable pub resolve_capture_max_entries : Resolved ℕ
  unfolding pick_value env_num
  resolve_capture_max_entries =
      pick_value cli.capture_max_entries (env_num vars "OSTK_CAPTURE_MAX_ENTRIES")
        (field file (λ f. f.capture.max_entries)) default_capture_max_entries

  unfoldable pub resolve_write_policy_enabled : Resolved Bool
  unfolding pick_value env_truthy
  resolve_write_policy_enabled =
      pick_value (flag cli.write_policy) (env_truthy vars "OSTK_CACHE_WRITE_POLICY")
        (field file (λ f. f.write_policy.enabled)) false

  unfoldable pub resolve_policy_compact : Resolved D.Float
  unfolding pick_value env_str
  resolve_policy_compact =
      pick_value cli.policy_compact
        (env_str vars "OSTK_CACHE_POLICY_COMPACT" >>= λ s. D.parse_float s)
        (field file (λ f. f.write_policy.compact)) D.compact

  unfoldable pub resolve_policy_min_prefix : Resolved ℕ
  unfolding pick_value env_num
  resolve_policy_min_prefix =
      pick_value cli.policy_min_prefix (env_num vars "OSTK_CACHE_POLICY_MIN_PREFIX")
        (field file (λ f. f.write_policy.min_prefix)) 25000

  unfoldable pub resolve_policy_cold_cap : Resolved ℕ
  unfolding pick_value env_num
  resolve_policy_cold_cap =
      pick_value cli.policy_cold_cap (env_num vars "OSTK_CACHE_POLICY_COLD_CAP")
        (field file (λ f. f.write_policy.cold_cap)) 200000

  unfoldable pub resolve_verbose : Resolved Bool
  unfolding pick_value
  resolve_verbose = pick_value (flag cli.verbose) none none false

  unfoldable pub resolve : Config D.Float
  unfolding resolve_port resolve_upstream resolve_mode resolve_tail resolve_soft_cap
      resolve_sessions resolve_tail_limit resolve_claude_projects_dir resolve_rewrite_enabled
      resolve_ostk_dir resolve_kernel_socket resolve_kernel_timeout_ms resolve_body_limit_mb
      resolve_overflow_mb resolve_usage_truth resolve_truth_bytes_per_token resolve_capture_http
      resolve_capture_http_dir resolve_capture_max_entries resolve_write_policy_enabled
      resolve_policy_compact resolve_policy_min_prefix resolve_policy_cold_cap resolve_verbose
  resolve = record {
    port = resolve_port;
    upstream = resolve_upstream;
    provider = resolve_provider;
    mode = resolve_mode;
    tail_transcript = resolve_tail;
    tail_limit = resolve_tail_limit;
    claude_projects_dir = resolve_claude_projects_dir;
    rewrite_enabled = resolve_rewrite_enabled;
    ostk_dir = resolve_ostk_dir;
    kernel_socket = resolve_kernel_socket;
    kernel_timeout_ms = resolve_kernel_timeout_ms;
    soft_cap_mb = resolve_soft_cap;
    body_limit_mb = resolve_body_limit_mb;
    overflow_mb = resolve_overflow_mb;
    usage_truth = resolve_usage_truth;
    usage_truth_sessions = resolve_sessions;
    truth_bytes_per_token = resolve_truth_bytes_per_token;
    capture_http = resolve_capture_http;
    capture_http_dir = resolve_capture_http_dir;
    capture_max_entries = resolve_capture_max_entries;
    write_policy_enabled = resolve_write_policy_enabled;
    policy_compact = resolve_policy_compact;
    policy_min_prefix = resolve_policy_min_prefix;
    policy_cold_cap = resolve_policy_cold_cap;
    verbose = resolve_verbose;
  }
