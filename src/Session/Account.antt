-- ===== src/Session/Account.antt =====
-- The row of the ledger for a turn, `account` of src/lib.rs. `f64` with its quotient is the record
-- Ratio; the time is an argument.
use ostk_cache.Prelude.{ℕ, ◌+◌, ◌%◌, ◌^◌, ◌==◌, Bool, Option, none, some, Text, if◌then◌else◌}
use ostk_cache.Usage.{ProviderUsage}
use ostk_cache.Rebuild.Sections.{SectionSizes}
use ostk_cache.Rebuild.SoftCap.{ReductionReport}

pub record Ratio : Type 1 where
  pub Float : Type 0
  pub one : Float
  pub quotient : ℕ → ℕ → Float

pub record SizeMetrics : Type 0 where
  pub req_bytes_in : Option ℕ
  pub req_bytes_out : Option ℕ
  pub resp_bytes : Option ℕ

pub record AccountInput : Type 0 where
  pub usage : ProviderUsage
  pub session : Text
  pub workspace_id : Text
  pub firmware_bytes : ℕ
  pub state_bytes : ℕ
  pub hot_count : ℕ
  pub mode : Text
  pub sizes : SizeMetrics
  pub sections : Option SectionSizes
  pub reduction : Option ReductionReport

pub record AmpRow (Float : Type 0) : Type 0 where
  pub session : Text
  pub workspace_id : Text
  pub input_tokens_total : ℕ
  pub cache_read_tokens : ℕ
  pub cache_create_tokens : ℕ
  pub amp_ratio : Float
  pub firmware_bytes : ℕ
  pub state_bytes : ℕ
  pub hot_count : ℕ
  pub timestamp : ℕ
  pub mode : Text
  pub req_bytes_in : Option ℕ
  pub req_bytes_out : Option ℕ
  pub resp_bytes : Option ℕ
  pub system_bytes : Option ℕ
  pub tools_bytes : Option ℕ
  pub synthetic_bytes : Option ℕ
  pub in_flight_bytes : Option ℕ
  pub tier_a_ejected : Option ℕ
  pub tier_b_pairs_pruned : Option ℕ
  pub tier_c_tools_dropped : Option ℕ
  pub irreducible : Option Bool

abbrev pub of_report : {A B : Type 0} → (A → B) → Option A → Option B
of_report f none = none
of_report f (some r) = some (f r)

module _ (F : Ratio) where
  -- The sum wraps around.
  unfoldable pub amp_ratio_of : ProviderUsage → F.Float
  amp_ratio_of u =
      if u.input_tokens == 0
      then F.one
      else F.quotient ((u.cache_read_tokens + u.input_tokens) % 2 ^ 64) u.input_tokens

  unfoldable pub account : ℕ → AccountInput → AmpRow F.Float
  unfolding amp_ratio_of
  account timestamp input = record {
    session = input.session;
    workspace_id = input.workspace_id;
    input_tokens_total = input.usage.input_tokens;
    cache_read_tokens = input.usage.cache_read_tokens;
    cache_create_tokens = input.usage.cache_create_tokens;
    amp_ratio = amp_ratio_of input.usage;
    firmware_bytes = input.firmware_bytes;
    state_bytes = input.state_bytes;
    hot_count = input.hot_count;
    timestamp = timestamp;
    mode = input.mode;
    req_bytes_in = input.sizes.req_bytes_in;
    req_bytes_out = input.sizes.req_bytes_out;
    resp_bytes = input.sizes.resp_bytes;
    system_bytes = of_report (λ s. s.system) input.sections;
    tools_bytes = of_report (λ s. s.tools) input.sections;
    synthetic_bytes = of_report (λ s. s.synthetic) input.sections;
    in_flight_bytes = of_report (λ s. s.in_flight) input.sections;
    tier_a_ejected = of_report (λ r. r.tier_a_ejected) input.reduction;
    tier_b_pairs_pruned = of_report (λ r. r.tier_b_pairs_pruned) input.reduction;
    tier_c_tools_dropped = of_report (λ r. r.tier_c_tools_dropped) input.reduction;
    irreducible = of_report (λ r. r.irreducible) input.reduction;
  }
