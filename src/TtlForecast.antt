-- ===== src/TtlForecast.antt =====
-- src/ttl_forecast.rs: the cadence classifier, which records and reports but writes nothing into a
-- request. The answer of the identity hints, read from files, is an argument of each request.
pub mod Decision
pub mod Ring
pub mod WakeHint
mod Tests
use ostk_cache.Prelude.Sort.{sort}
use ostk_cache.Prelude.{
  ℕ, ◌+◌, ◌-◌, ◌*◌, ◌/◌, Bool, true, false, ◌&&◌, List, [], ◌∷◌, ◌++◌, Option, none, some, String,
  ltb, leb, if◌then◌else◌, length, get_or, drop,
}

-- The classifier never gives the last.
pub data TtlForecast : Type 0 where
  keep_1h demote_5m let_die_cold : TtlForecast

unfoldable pub as_str : TtlForecast → String
as_str keep_1h = "keep1h"
as_str demote_5m = "demote5m"
as_str let_die_cold = "die_cold"

pub data CadenceSource : Type 0 where
  observed identity_hint default : CadenceSource

unfoldable pub source_str : CadenceSource → String
source_str observed = "observed"
source_str identity_hint = "identity_hint"
source_str default = "default"

pub record SeatCadence : Type 0 where
  pub last_request_ts : Option ℕ
  pub gap_ring : List ℕ
  pub last_forecast : Option TtlForecast

-- `SeatCadence::default()`
abbrev pub no_requests : SeatCadence
no_requests = record { last_request_ts = none; gap_ring = []; last_forecast = none }

abbrev pub cadence_ring_cap : ℕ
cadence_ring_cap = 8

abbrev pub min_observations : ℕ
min_observations = 2

abbrev pub sixty_min_s : ℕ
sixty_min_s = 60 * 60

pub record ForecastResult : Type 0 where
  pub forecast : TtlForecast
  pub observed_gap_s : Option ℕ
  pub source : CadenceSource

-- Part 1: the ring with the gap since the last request, where there was one.
unfoldable pub record_gap : Option ℕ → ℕ → List ℕ → List ℕ
record_gap none now ring = ring
record_gap (some last) now ring =
    (if leb cadence_ring_cap (length ring) then drop 1 ring else ring) ++ (now - last) ∷ []

-- Part 2: the decision on a ring with enough gaps, and the gap that drove it.
unfoldable pub classify : List ℕ → TtlForecast × ℕ
classify ring =
    let sorted = sort ring in
    let median = get_or sorted (length sorted / 2) 0 in
    let min_gap = get_or sorted 0 0 in
    if ltb sixty_min_s median && ltb sixty_min_s min_gap
    then (demote_5m, min_gap)
    else (keep_1h, median)

-- Parts 3 and 4: the hint, or the default.
unfoldable pub cold_start : Option TtlForecast → ForecastResult
cold_start (some hint) = record { forecast = hint; observed_gap_s = none; source = identity_hint }
cold_start none = record { forecast = keep_1h; observed_gap_s = none; source = default }

unfoldable pub judge : List ℕ → Option TtlForecast → ForecastResult
unfolding classify cold_start
judge ring hint =
    if leb min_observations (length ring)
    then (let (decision, gap) = classify ring in
        record { forecast = decision; observed_gap_s = some gap; source = observed })
    else cold_start hint

unfoldable pub forecast_ttl : ℕ → SeatCadence → Option TtlForecast → SeatCadence × ForecastResult
unfolding record_gap judge
forecast_ttl now_secs cadence hint =
    let ring = record_gap cadence.last_request_ts now_secs cadence.gap_ring in
    let result = judge ring hint in
    (
      record {
        last_request_ts = some now_secs;
        gap_ring = ring;
        last_forecast = some result.forecast;
      },
      result,
    )
