-- ===== src/Config/Settings.antt =====
-- The records of src/config.rs: the arguments, the tables of the TOML file, the resolved
-- configuration.
use ostk_cache.Prelude.{ℕ, Bool, List, Option, Text}
use ostk_cache.ProviderPolicy.{Provider}
use ostk_cache.Config.{Mode, Resolved}

pub record CliArgs (Float : Type 0) : Type 0 where
  pub port : Option ℕ
  pub upstream : Option Text
  pub provider : Option Provider
  pub mode : Option Mode
  pub tail_transcript : Bool
  pub no_tail_transcript : Bool
  pub tail_limit : Option ℕ
  pub claude_projects_dir : Option Text
  pub ostk_dir : Option Text
  pub kernel_socket : Option Text
  pub kernel_timeout_ms : Option ℕ
  pub no_rewrite : Bool
  pub soft_cap_mb : Option ℕ
  pub no_soft_cap : Bool
  pub body_limit_mb : Option ℕ
  pub overflow_mb : Option ℕ
  pub usage_truth : Bool
  pub usage_truth_session : List Text
  pub truth_bytes_per_token : Option Float
  pub capture_http : Bool
  pub capture_http_dir : Option Text
  pub capture_max_entries : Option ℕ
  pub write_policy : Bool
  pub policy_compact : Option Float
  pub policy_min_prefix : Option ℕ
  pub policy_cold_cap : Option ℕ
  pub verbose : Bool

pub record TruthFile (Float : Type 0) : Type 0 where
  pub enabled : Option Bool
  pub bytes_per_token : Option Float
  pub sessions : Option (List Text)

pub record TailFile : Type 0 where
  pub transcript : Option Bool
  pub limit : Option ℕ
  pub claude_projects_dir : Option Text

pub record RewriteFile : Type 0 where
  pub enabled : Option Bool
  pub ostk_dir : Option Text

pub record KernelFile : Type 0 where
  pub socket : Option Text
  pub timeout_ms : Option ℕ

pub record CaptureFile : Type 0 where
  pub http : Option Bool
  pub dir : Option Text
  pub max_entries : Option ℕ

pub record WritePolicyFile (Float : Type 0) : Type 0 where
  pub enabled : Option Bool
  pub compact : Option Float
  pub min_prefix : Option ℕ
  pub cold_cap : Option ℕ

pub record FileConfig (Float : Type 0) : Type 0 where
  pub port : Option ℕ
  pub upstream : Option Text
  pub provider : Option Provider
  pub mode : Option Mode
  pub soft_cap_mb : Option ℕ
  pub body_limit_mb : Option ℕ
  pub overflow_mb : Option ℕ
  pub truth : TruthFile Float
  pub tail : TailFile
  pub rewrite : RewriteFile
  pub kernel : KernelFile
  pub capture : CaptureFile
  pub write_policy : WritePolicyFile Float

pub record Config (Float : Type 0) : Type 0 where
  pub port : Resolved ℕ
  pub upstream : Resolved Text
  pub provider : Resolved Provider
  pub mode : Resolved Mode
  pub tail_transcript : Resolved Bool
  pub tail_limit : Resolved ℕ
  pub claude_projects_dir : Resolved Text
  pub rewrite_enabled : Resolved Bool
  pub ostk_dir : Resolved (Option Text)
  pub kernel_socket : Resolved (Option Text)
  pub kernel_timeout_ms : Resolved ℕ
  pub soft_cap_mb : Resolved ℕ
  pub body_limit_mb : Resolved ℕ
  pub overflow_mb : Resolved ℕ
  pub usage_truth : Resolved Bool
  pub usage_truth_sessions : Resolved (List Text)
  pub truth_bytes_per_token : Resolved Float
  pub capture_http : Resolved Bool
  pub capture_http_dir : Resolved Text
  pub capture_max_entries : Resolved ℕ
  pub write_policy_enabled : Resolved Bool
  pub policy_compact : Resolved Float
  pub policy_min_prefix : Resolved ℕ
  pub policy_cold_cap : Resolved ℕ
  pub verbose : Resolved Bool

-- What is not of this file: `f64` and its parser, and the two default directories.
pub record Defaults : Type 1 where
  pub Float : Type 0
  pub parse_float : Text → Option Float
  pub bytes_per_token : Float
  pub compact : Float
  pub claude_projects_dir : Text
  pub capture_dir : Text
