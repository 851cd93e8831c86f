-- ===== src/TtlForecast/Decision.antt =====
-- What the cadence classifier of src/ttl_forecast.rs decides.
use ostk_cache.Prelude.Sort.{count_below, get_or-sort-lt_iff, length-sort}
use ostk_cache.Prelude.{
  ℕ, suc, ◌/◌, ◌≤◌, ◌<◌, ◌≡◌, ◌↔◌, ◌⊎◌, inl, inr, true, false, List, [], ◌∷◌, Option, none, some,
  arith, length, leb, All, Bool-cases,
}
use ostk_cache.TtlForecast.{
  TtlForecast, demote_5m, SeatCadence, sixty_min_s, record_gap, classify, cold_start, judge,
  forecast_ttl,
}

count_below-zero_iff : (b : ℕ) (xs : List ℕ) → (count_below (suc b) xs ≡ 0) ↔ All (λ g. b < g) xs
unfolding count_below
count_below-zero_iff b [] = ground arith
count_below-zero_iff b (x ∷ xs) = ground (arith, count_below-zero_iff b xs)

classify-demote_iff :
    (ring : List ℕ)
    → 0 < length ring
    → ((classify ring).0 ≡ demote_5m) ↔ All (λ g. sixty_min_s < g) ring
unfolding classify
classify-demote_iff ring h =
    let k = length ring / 2 in
    ground (
      arith,
      length-sort ring,
      count_below-zero_iff 3600 ring,
      get_or-sort-lt_iff 3601 0 ring h,
      get_or-sort-lt_iff 3601 k ring (omega arith),
    )

cold_start-demote_iff :
    (hint : Option TtlForecast) → ((cold_start hint).forecast ≡ demote_5m) ↔ (hint ≡ some demote_5m)
unfolding cold_start
cold_start-demote_iff none = ground arith
cold_start-demote_iff (some h) = ground arith

judge-observed :
    (ring : List ℕ) (hint : Option TtlForecast)
    → leb 2 (length ring) ≡ true
    → (judge ring hint).forecast ≡ (classify ring).0
unfolding judge
judge-observed ring hint h = ground arith

judge-cold :
    (ring : List ℕ) (hint : Option TtlForecast)
    → leb 2 (length ring) ≡ false
    → (judge ring hint).forecast ≡ (cold_start hint).forecast
unfolding judge
judge-cold ring hint h = ground arith

-- The ring that a request is judged by.
abbrev pub ring_at : ℕ → SeatCadence → List ℕ
ring_at now cadence = record_gap cadence.last_request_ts now cadence.gap_ring

-- A request is reported as one to demote exactly when its ring, this request's gap included, has
-- two gaps or more, all of them above an hour, or has fewer and the hint says so.
pub demote_iff :
    (now : ℕ) (cadence : SeatCadence) (hint : Option TtlForecast)
    → ((forecast_ttl now cadence hint).1.forecast ≡ demote_5m) ↔ (
        ((2 ≤ length (ring_at now cadence)) × All (λ g. sixty_min_s < g) (ring_at now cadence))
        ⊎ ((length (ring_at now cadence) < 2) × (hint ≡ some demote_5m)))
unfolding forecast_ttl
demote_iff now cadence hint =
    let ring = ring_at now cadence in
    elim (Bool-cases (leb 2 (length ring))) [
      | inl e ↦ ground (arith, judge-observed ring hint e, classify-demote_iff ring (ground arith))
      | inr e ↦ ground (arith, judge-cold ring hint e, cold_start-demote_iff hint)
    ]
