-- ===== src/WritePolicy.antt =====
-- src/write_policy.rs: the WARM/DEAD lane machine of the cache-write policy. Times are seconds and
-- sizes are tokens, both `u64`; sums saturate as in the source. `f64` is a parameter: the policy's
-- guarantees use nothing of its rounding.
pub mod Forecast
pub mod Invariant
pub mod Sequence
mod Tests
use ostk_cache.Prelude.Sort.{sort}
use ostk_cache.Prelude.{
  ℕ, ◌+◌, ◌-◌, ◌/◌, ◌^◌, min, max, Bool, true, false, ◌&&◌, List, [], ◌∷◌, ◌++◌, Option, none, some,
  ltb, leb, ◌==◌, if◌then◌else◌, length, get_or, drop, String,
}

pub record F64 : Type 1 where
  pub Float : Type 0
  pub of_u64 : ℕ → Float
  pub mul : Float → Float → Float
  pub div : Float → Float → Float
  pub to_u64 : Float → ℕ

-- `WritePolicyParams`; `compact` is a float.
pub record Params (Float : Type 0) : Type 0 where
  pub compact : Float
  pub min_prefix : ℕ
  pub cold_cap : ℕ

pub data TtlTier : Type 0 where
  ephemeral_5m ephemeral_1h : TtlTier

abbrev pub five_min_s : ℕ
five_min_s = 300

abbrev pub one_hour_s : ℕ
one_hour_s = 3600

abbrev pub u64_max : ℕ
u64_max = 2 ^ 64 - 1

unfoldable pub wire_str : TtlTier → String
wire_str ephemeral_5m = "5m"
wire_str ephemeral_1h = "1h"

unfoldable pub as_secs : TtlTier → ℕ
as_secs ephemeral_5m = five_min_s
as_secs ephemeral_1h = one_hour_s

pub data LaneClass : Type 0 where
  warm dead : LaneClass

pub record LaneState : Type 0 where
  pub s : ℕ
  pub c : ℕ
  pub p_obs : ℕ
  pub ttl_s : ℕ
  pub last_ts : Option ℕ
  pub gaps : List ℕ

-- `LaneState::default()`
abbrev pub fresh : LaneState
fresh = record { s = 0; c = 0; p_obs = 0; ttl_s = 0; last_ts = none; gaps = [] }

abbrev pub gap_ring_cap : ℕ
gap_ring_cap = 8

abbrev pub forecast_window : ℕ
forecast_window = 5

pub record PolicyDecision : Type 0 where
  pub class : LaneClass
  pub tier : TtlTier
  pub compact_target : Option ℕ
  pub expected_read : ℕ
  pub expected_write : ℕ
  pub gap_s : Option ℕ

abbrev pub saturating_add : ℕ → ℕ → ℕ
saturating_add a b = min (a + b) u64_max

-- The trailing window of the ring, `gaps[gaps.len().saturating_sub(FORECAST_WINDOW)..]`.
unfoldable pub window : List ℕ → List ℕ
window gaps = drop (length gaps - forecast_window) gaps

-- The tier for a median gap.
tier_of : ℕ → TtlTier
tier_of med =
    if ltb med five_min_s
    then ephemeral_5m
    else if leb med one_hour_s
    then ephemeral_1h
    else ephemeral_5m

median : List ℕ → ℕ
median tail = get_or (sort tail) (length (sort tail) / 2) 0

unfoldable pub forecast_tier : List ℕ → TtlTier
unfolding tier_of median
forecast_tier [] = ephemeral_5m
forecast_tier (g ∷ gs) = tier_of (median (window (g ∷ gs)))

-- Step 2: the oldest gap leaves a full ring.
unfoldable pub push_gap : Option ℕ → List ℕ → List ℕ
push_gap none gaps = gaps
push_gap (some g) gaps = (if leb gap_ring_cap (length gaps) then drop 1 gaps else gaps) ++ g ∷ []

-- `lane.last_ts.map(|last| now_secs.saturating_sub(last))`
unfoldable pub gap_since : Option ℕ → ℕ → Option ℕ
gap_since none now = none
gap_since (some last) now = some (now - last)

-- The lane starts at the 5-minute tier.
start_ttl : ℕ → ℕ
start_ttl ttl = if ttl == 0 then five_min_s else ttl

unfoldable pub is_warm : LaneState → Option ℕ → Bool
is_warm lane none = false
is_warm lane (some g) = ltb 0 lane.c && ltb g lane.ttl_s

module _ (F : F64) where
  open F use {Float, of_u64, mul, div, to_u64}

  -- Step 1, the observed prefix shrank: the simulated sizes shrink in proportion.
  unfoldable pub shrink : LaneState → ℕ → LaneState
  shrink lane p =
      let scaled = to_u64 (div (mul (of_u64 lane.s) (of_u64 p)) (of_u64 (max lane.p_obs 1))) in
      let s' = min lane.s scaled in record lane { s = s'; c = min lane.c s' }

  advance : LaneState → ℕ → ℕ → LaneState
  advance lane p growth = record lane { p_obs = p; s = saturating_add lane.s growth }

  -- Step 1: growth of the prompt since the lane's previous request.
  unfoldable pub observe : Option ℕ → LaneState → ℕ → LaneState
  unfolding shrink advance
  observe none lane p = advance lane p p
  observe (some last) lane p =
      if leb lane.p_obs p then advance lane p (p - lane.p_obs) else advance (shrink lane p) p 0

  -- The size that a DEAD lane is projected to.
  unfoldable pub compact_to : ℕ → Params Float → ℕ
  compact_to s params =
      if ltb 0 s
      then min (max (to_u64 (mul (of_u64 s) params.compact)) params.min_prefix) params.cold_cap
      else 0

  -- Steps 3 and 4, on the lane whose gap is recorded.
  unfoldable pub settle :
      Bool → LaneState → ℕ → Option ℕ → Params Float → LaneState × PolicyDecision
  unfolding compact_to as_secs
  settle true lane now gap params =
      let tier = forecast_tier lane.gaps in
      (
        record lane { ttl_s = as_secs tier; c = lane.s; last_ts = some now },
        record {
          class = warm;
          tier = tier;
          compact_target = none;
          expected_read = lane.c;
          expected_write = lane.s - lane.c;
          gap_s = gap;
        },
      )
  settle false lane now gap params =
      let tier = forecast_tier lane.gaps in
      let target = compact_to lane.s params in
      (
        record lane { s = target; c = target; ttl_s = as_secs tier; last_ts = some now },
        record {
          class = dead;
          tier = tier;
          compact_target = some target;
          expected_read = 0;
          expected_write = target;
          gap_s = gap;
        },
      )

  -- What `decide` has made of the lane when it comes to classify.
  unfoldable pub prepare : LaneState → ℕ → ℕ → LaneState
  unfolding start_ttl observe push_gap gap_since
  prepare lane now p =
      let seen = observe lane.last_ts (record lane { ttl_s = start_ttl lane.ttl_s }) p in
      record seen { gaps = push_gap (gap_since lane.last_ts now) seen.gaps }

  unfoldable pub decide : LaneState → ℕ → ℕ → Params Float → LaneState × PolicyDecision
  unfolding prepare settle is_warm
  decide lane now p params =
      let gap = gap_since lane.last_ts now in
      let seen = prepare lane now p in settle (is_warm seen gap) seen now gap params
