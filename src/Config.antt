-- ===== src/Config.antt =====
-- The layered configuration, src/config.rs: where a value comes from, and the values of the
-- environment. Arguments and the TOML file are read elsewhere, and are records here; a path is its
-- text. The two default directories, which come from `HOME`, and `f64` are parameters (Defaults).
pub mod Settings
pub mod Resolve
pub mod Laws
mod Tests
use ostk_cache.Prelude.{
  ℕ, ◌%◌, ◌==◌, Bool, true, false, ◌&&◌, ◌||◌, List, [], ◌∷◌, ◌++◌, Option, none, some, String,
  Text, codes, eqb, map, retain, not, if◌then◌else◌, ◌>>=◌, or_else, unwrap_or,
}
use ostk_cache.Prelude.Numbers.{parse_unsigned, max_u64}
use ostk_cache.Prelude.Utf8.{trim}
use ostk_cache.ProviderPolicy.{Provider, anthropic, gpt, to_ascii_lowercase}

pub data Mode : Type 0 where
  passthrough mutate rebuild rebuild_kernel : Mode

-- The tag in the ledger, and the name that is shown.
unfoldable pub ledger_tag : Mode → Text
ledger_tag passthrough = codes "passthrough"
ledger_tag mutate = codes "mutate"
ledger_tag rebuild = codes "rebuild_local"
ledger_tag rebuild_kernel = codes "rebuild_kernel"

unfoldable pub mode_name : Mode → Text
mode_name passthrough = codes "passthrough"
mode_name mutate = codes "mutate"
mode_name rebuild = codes "rebuild"
mode_name rebuild_kernel = codes "rebuild-kernel"

unfoldable pub provider_name : Provider → Text
provider_name anthropic = codes "anthropic"
provider_name gpt = codes "gpt"

abbrev pub is_rebuild : Mode → Bool
is_rebuild rebuild = true
is_rebuild rebuild_kernel = true
is_rebuild _ = false

pub data Source : Type 0 where
  default toml env cli : Source

pub record Resolved {ℓ} (A : Type ℓ) : Type ℓ where
  pub value : A
  pub source : Source

unfoldable pub pick_value {ℓ} : {A : Type ℓ} → Option A → Option A → Option A → A → Resolved A
pick_value (some v) _ _ d = record { value = v; source = cli }
pick_value none (some v) _ d = record { value = v; source = env }
pick_value none none (some v) d = record { value = v; source = toml }
pick_value none none none d = record { value = d; source = default }

unfoldable pub pick_value_opt {ℓ} :
    {A : Type ℓ} → Option A → Option A → Option A → Resolved (Option A)
pick_value_opt (some v) _ _ = record { value = some v; source = cli }
pick_value_opt none (some v) _ = record { value = some v; source = env }
pick_value_opt none none (some v) = record { value = some v; source = toml }
pick_value_opt none none none = record { value = none; source = default }

-- The variables of the environment.
abbrev pub Environment : Type 0
Environment = String → Option Text

unfoldable pub not_empty : Option Text → Option Text
not_empty none = none
not_empty (some []) = none
not_empty (some (c ∷ s)) = some (c ∷ s)

-- An empty value is none.
unfoldable pub env_str : Environment → String → Option Text
unfolding not_empty
env_str vars k = not_empty (vars k)

-- `v.trim().to_ascii_lowercase()`
unfoldable pub normal : Text → Text
unfolding trim to_ascii_lowercase
normal v = map to_ascii_lowercase (trim v)

unfoldable pub is_truthy : Text → Bool
unfolding eqb
is_truthy v = eqb v (codes "1") || (eqb v (codes "true") || eqb v (codes "yes"))

unfoldable pub env_truthy : Environment → String → Option Bool
unfolding env_str normal is_truthy
env_truthy vars k = env_str vars k >>= λ v. some (is_truthy (normal v))

unfoldable pub env_num : Environment → String → Option ℕ
unfolding env_str parse_unsigned
env_num vars k = env_str vars k >>= λ s. parse_unsigned max_u64 s

unfoldable pub provider_of : Text → Option Provider
unfolding eqb
provider_of v =
    if eqb v (codes "anthropic")
    then some anthropic
    else if eqb v (codes "gpt") || eqb v (codes "openai")
    then some gpt
    else none

unfoldable pub rebuild_of : Text → Option Mode
unfolding is_truthy eqb
rebuild_of v =
    if is_truthy v
    then some rebuild
    else if eqb v (codes "kernel")
    then some rebuild_kernel
    else none

-- The mode by the two older variables.
unfoldable pub mode_from_env : Environment → Option Mode
unfolding env_truthy env_str normal rebuild_of
mode_from_env vars =
    if unwrap_or (env_truthy vars "OSTK_CACHE_PASSTHROUGH") false
    then some passthrough
    else (env_str vars "OSTK_CACHE_REBUILD" >>= λ v. rebuild_of (normal v))

unfoldable pub upstream_env : Environment → Provider → Option Text
unfolding env_str
upstream_env vars anthropic = env_str vars "ANTHROPIC_BASE_URL"
upstream_env vars gpt = or_else (env_str vars "OPENAI_BASE_URL") (env_str vars "ANTHROPIC_BASE_URL")

abbrev pub default_upstream : Text
default_upstream = codes "https://api.anthropic.com"

abbrev pub default_openai_upstream : Text
default_openai_upstream = codes "https://api.openai.com"

abbrev pub upstream_default : Provider → Text
upstream_default anthropic = default_upstream
upstream_default gpt = default_openai_upstream

-- `s.split(',')`
unfoldable pub split_commas : Text → List Text
split_commas [] = [] ∷ []
split_commas (c ∷ s) =
    let rest = split_commas s in
    if c == b','
    then [] ∷ rest
    else elim rest [ [] ↦ (c ∷ []) ∷ [] | part ∷ parts ↦ (c ∷ part) ∷ parts ]

abbrev is_empty : Text → Bool
is_empty [] = true
is_empty (c ∷ s) = false

unfoldable pub sessions_of : Text → List Text
unfolding split_commas trim
sessions_of s = retain (λ p. not (is_empty p)) (map trim (split_commas s))
