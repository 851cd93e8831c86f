-- ===== src/UsageTruth/Overflow.antt =====
-- The two numbers of the overflow answer of src/usage_truth.rs.
use ostk_cache.Prelude.{ℕ, ◌≤◌, ◌<◌, ◌≢◌, ◌↔◌, arith}
use ostk_cache.UsageTruth.{Estimate, actual_tokens, max_tokens}

-- The maximum that the overflow answer names is at least one, is not above the actual number, and
-- is below it except where the actual number is one.
pub max_tokens_lem :
    (f : Estimate) (req_bytes threshold_bytes : ℕ)
    → (1 ≤ max_tokens f req_bytes threshold_bytes)
      × (max_tokens f req_bytes threshold_bytes ≤ actual_tokens f req_bytes)
      × ((max_tokens f req_bytes threshold_bytes < actual_tokens f req_bytes)
          ↔ (actual_tokens f req_bytes ≢ 1))
unfolding max_tokens actual_tokens
max_tokens_lem f req threshold = ground arith
