-- ===== src/WritePolicy/Forecast.antt =====
-- What the write-time forecast of src/write_policy.rs chooses.
use ostk_cache.Prelude.Sort.{count_below, get_or-sort-lt_iff, length-sort}
use ostk_cache.Prelude.{
  ℕ, ◌+◌, ◌-◌, ◌/◌, ◌≤◌, ◌<◌, ◌≡◌, ◌↔◌, List, [], ◌∷◌, arith, length, length-drop, get_or, ◌≢◌,
  refl,
}
use ostk_cache.Prelude.Sort.{sort}
use ostk_cache.WritePolicy.{
  ephemeral_1h, window, tier_of, median, forecast_tier, five_min_s, one_hour_s,
}

pub length-window :
    (gaps : List ℕ) → (length (window gaps) ≤ length gaps) × (length (window gaps) ≤ 5)
unfolding window
length-window gaps = omega (arith, length-drop (length gaps - 5) gaps)

tier_of-1h_iff : (med : ℕ) → (tier_of med ≡ ephemeral_1h) ↔ ((300 ≤ med) × (med < 3601))
unfolding tier_of
tier_of-1h_iff med = ground arith

window-pos : (g : ℕ) (gs : List ℕ) → 0 < length (window (g ∷ gs))
unfolding window
window-pos g gs = omega (arith, length-drop (length (g ∷ gs) - 5) (g ∷ gs))

-- How many gaps of the window are shorter than the bound.
abbrev pub short_gaps : ℕ → List ℕ → ℕ
short_gaps b gaps = count_below b (window gaps)

-- On a nonempty history the forecast is the one-hour tier exactly when at most half of the window's
-- gaps (rounded down) are shorter than five minutes and more than half are at most an hour.
pub forecast_tier-1h_iff :
    (gaps : List ℕ)
    → gaps ≢ []
    → (forecast_tier gaps ≡ ephemeral_1h) ↔ (
        (short_gaps five_min_s gaps ≤ length (window gaps) / 2)
        × (length (window gaps) / 2 < short_gaps (one_hour_s + 1) gaps))
unfolding forecast_tier median
forecast_tier-1h_iff [] h = absurd (h refl)
forecast_tier-1h_iff (g ∷ gs) h =
    let w : List ℕ = window (g ∷ gs) in
    let k = length w / 2 in
    let small : k < length w = omega (arith, window-pos g gs) in
    ground (
      arith,
      length-sort w,
      tier_of-1h_iff (get_or (sort w) (length (sort w) / 2) 0),
      get_or-sort-lt_iff 300 k w small,
      get_or-sort-lt_iff 3601 k w small,
    )
