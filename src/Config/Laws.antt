-- ===== src/Config/Laws.antt =====
-- What the resolved configuration depends on.
use text.Mathlib.Text.{◌==◌ as str_eq}
use ostk_cache.Prelude.{
  ℕ, ◌≤◌, ◌≡◌, refl, [], ◌∷◌, Option, none, some, String, Text, arith, if◌then◌else◌,
}
use ostk_cache.Prelude.Numbers.{max_u16}
use ostk_cache.ProviderPolicy.{Provider, anthropic, gpt}
use ostk_cache.Config.{pick_value, Environment, not_empty, env_str, upstream_env}
use ostk_cache.Config.Settings.{CliArgs, FileConfig, Defaults}
use ostk_cache.Config.Resolve.{field, resolve_port, resolve_upstream, resolve}

-- The environment with one variable set or unset.
abbrev pub with_var : String → Option Text → Environment → Environment
with_var k v vars j = if str_eq j k then v else vars j

-- What a number given as an argument, or in the file, is of.
abbrev pub Fits : ℕ → Option ℕ → Type 0
Fits largest none = Unit
Fits largest (some n) = n ≤ largest

not_empty-not_empty : (o : Option Text) → not_empty (not_empty o) ≡ not_empty o
unfolding not_empty
not_empty-not_empty none = refl
not_empty-not_empty (some []) = refl
not_empty-not_empty (some (c ∷ s)) = refl

upstream_env-not_empty :
    (vars : Environment) (p : Provider)
    → upstream_env (λ k. not_empty (vars k)) p ≡ upstream_env vars p
unfolding upstream_env env_str
upstream_env-not_empty vars anthropic = not_empty-not_empty (vars "ANTHROPIC_BASE_URL")
upstream_env-not_empty vars gpt = simp not_empty-not_empty

module _ (D : Defaults) (vars : Environment) (cli : CliArgs D.Float)
    (file : Option (FileConfig D.Float)) where
  -- Where the provider is Anthropic, the configuration is the same whatever `OPENAI_BASE_URL` is.
  pub resolve_anthropic :
      (v : Option Text)
      → (resolve D vars cli file).provider.value ≡ anthropic
      → resolve D (with_var "OPENAI_BASE_URL" v vars) cli file ≡ resolve D vars cli file
  unfolding resolve resolve_upstream upstream_env env_str
  resolve_anthropic v h = rw h refl

  -- A variable that is empty is as one that is not set.
  pub resolve_empty : resolve D (λ k. not_empty (vars k)) cli file ≡ resolve D vars cli file
  unfolding resolve resolve_upstream env_str
  resolve_empty = simp (not_empty-not_empty, upstream_env-not_empty)

  -- The port fits its type whatever the environment says, where the argument and the file's do.
  pub port-le :
      Fits max_u16 cli.port
      → Fits max_u16 (field file (λ f. f.port))
      → (resolve D vars cli file).port.value ≤ max_u16
  unfolding resolve resolve_port pick_value
  port-le c f = ground arith
