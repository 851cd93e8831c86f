-- ===== src/WritePolicy/Tests.antt =====
-- Runs of the lane machine of src/write_policy.rs, with whole numbers in place of `f64`.
use ostk_cache.Prelude.{ℕ, ◌*◌, ◌/◌, ◌≡◌, ◌≢◌, refl, List, [], ◌∷◌, none, some, arith, All, min}
use ostk_cache.Prelude.Sort.{sort}
use ostk_cache.WritePolicy.{
  F64, Params, LaneState, fresh, ephemeral_5m, forecast_tier, decide, warm, dead, window,
}
use ostk_cache.WritePolicy.Invariant.{
  IsValid, fresh-IsValid, decide-IsValid, Accounts, decide-Accounts, Terms,
}
use ostk_cache.WritePolicy.Sequence.{serve, serve_from_fresh}

-- A stand-in whose factor is in thousandths.
abbrev thousandths : F64
thousandths = record {
  Float = ℕ;
  of_u64 = λ n. n * 1000;
  mul = λ a b. a * b / 1000;
  div = λ a b. a * 1000 / b;
  to_u64 = λ a. min (a / 1000) 18446744073709551615;
}

abbrev default_params : Params ℕ
default_params = record { compact = 278; min_prefix = 25000; cold_cap = 200000 }

abbrev opened : LaneState
opened = (decide thousandths fresh 1000 60000 default_params).0

first_is_dead : (decide thousandths fresh 1000 60000 default_params).1 ≡ record {
  class = dead;
  tier = ephemeral_5m;
  compact_target = some 25000;
  expected_read = 0;
  expected_write = 25000;
  gap_s = none;
}
unfolding decide forecast_tier
first_is_dead = refl

second_is_warm : (decide thousandths opened 1060 62000 default_params).1 ≡ record {
  class = warm;
  tier = ephemeral_5m;
  compact_target = none;
  expected_read = 25000;
  expected_write = 2000;
  gap_s = some 60;
}
unfolding decide forecast_tier sort window
second_is_warm = refl

abbrev hourly : List ℕ
hourly = 600 ∷ 700 ∷ 800 ∷ []

hourly_ne : hourly ≢ []
hourly_ne = λ e. cc e

decide-IsValid_example : IsValid (decide thousandths fresh 1000 60000 default_params).0
decide-IsValid_example =
    decide-IsValid thousandths fresh 1000 60000 default_params (omega arith) fresh-IsValid

decide-Accounts_example :
    Accounts thousandths default_params 1060
      (decide thousandths opened 1060 62000 default_params).0
      (decide thousandths opened 1060 62000 default_params).1
decide-Accounts_example =
    decide-Accounts thousandths opened 1060 62000 default_params decide-IsValid_example

abbrev requests : List (ℕ × ℕ)
requests = (1000, 60000) ∷ (1060, 62000) ∷ (9000, 64000) ∷ []

serve_from_fresh_example :
    IsValid (serve thousandths default_params fresh requests).0
    × All
        (λ d. Terms thousandths default_params d d.class)
        (serve thousandths default_params fresh requests).1
serve_from_fresh_example = serve_from_fresh thousandths default_params requests (omega arith)
