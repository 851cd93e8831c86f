-- ===== src/TtlForecast/Tests.antt =====
-- Runs of the cadence classifier of src/ttl_forecast.rs.
use ostk_cache.Prelude.{
  codes, starts_with, ℕ, ◌≤◌, ◌<◌, ◌≡◌, ◌↔◌, ◌⊎◌, refl, List, [], ◌∷◌, Option, none, some, length,
  All,
}
use ostk_cache.Prelude.Sort.{sort}
use ostk_cache.TtlForecast.WakeHint.{parse_wake_hint, parse_duration_str}
use ostk_cache.TtlForecast.{
  TtlForecast, keep_1h, demote_5m, observed, SeatCadence, no_requests, sixty_min_s, forecast_ttl,
  judge, classify, record_gap,
}
use ostk_cache.TtlForecast.Decision.{ring_at, demote_iff}
use ostk_cache.TtlForecast.Ring.{session, gaps_from, last_eight, session_ring}

abbrev requests : List (ℕ × Option TtlForecast)
requests = (1000, none) ∷ (5000, none) ∷ (9500, none) ∷ []

-- Two gaps above an hour.
abbrev slow : SeatCadence
slow = record { last_request_ts = some 5000; gap_ring = 4000 ∷ []; last_forecast = none }

slow_demoted :
    (forecast_ttl 9500 slow none).1
    ≡ record { forecast = demote_5m; observed_gap_s = some 4000; source = observed }
unfolding forecast_ttl judge classify record_gap sort
slow_demoted = refl

one_short_gap_keeps : (forecast_ttl 5060 slow none).1.forecast ≡ keep_1h
unfolding forecast_ttl judge classify record_gap sort
one_short_gap_keeps = refl

demote_iff_example : ((forecast_ttl 9500 slow none).1.forecast ≡ demote_5m) ↔ (
    ((2 ≤ length (ring_at 9500 slow)) × All (λ g. sixty_min_s < g) (ring_at 9500 slow))
    ⊎ ((length (ring_at 9500 slow) < 2) × (none ≡ some demote_5m)))
demote_iff_example = demote_iff 9500 slow none

session_ring_example :
    (session no_requests requests).gap_ring ≡ last_eight (gaps_from none requests)
session_ring_example = session_ring requests

two_hours : parse_wake_hint (codes " cron(2h) ") ≡ demote_5m
unfolding parse_wake_hint starts_with
two_hours = refl

four_minutes : parse_wake_hint (codes "cron(4m)") ≡ keep_1h
unfolding parse_wake_hint starts_with
four_minutes = refl

-- A product above `u64` wraps around to fifty-six seconds.
wrapped_minutes : parse_duration_str (codes "1229782938247303442m") ≡ some 56
unfolding parse_duration_str
wrapped_minutes = refl
