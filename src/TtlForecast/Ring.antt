-- ===== src/TtlForecast/Ring.antt =====
-- The ring of gaps of src/ttl_forecast.rs, over a whole session.
use ostk_cache.Prelude.{
  drop-append, ℕ, zero, suc, ◌-◌, ◌≡◌, refl, sym, ap, ◌∙◌, List, [], ◌∷◌, ◌++◌, append_assoc,
  append-nil, Option, none, some, arith, length, length-append, length-drop, drop, leb, Bool-cases,
  inl, inr,
}
use ostk_cache.TtlForecast.{
  TtlForecast, SeatCadence, no_requests, cadence_ring_cap, record_gap, forecast_ttl,
}

-- A session's requests, each with its time and the hint there is for it.
unfoldable pub session : SeatCadence → List (ℕ × Option TtlForecast) → SeatCadence
session cadence [] = cadence
session cadence ((now, hint) ∷ requests) = session (forecast_ttl now cadence hint).0 requests

-- The gaps between the requests, after one at some time.
abbrev pub gaps_from : Option ℕ → List (ℕ × Option TtlForecast) → List ℕ
gaps_from none [] = []
gaps_from none ((now, hint) ∷ requests) = gaps_from (some now) requests
gaps_from (some last) [] = []
gaps_from (some last) ((now, hint) ∷ requests) = (now - last) ∷ gaps_from (some now) requests

-- The last eight elements.
abbrev pub last_eight : List ℕ → List ℕ
last_eight xs = drop (length xs - cadence_ring_cap) xs

drop-suc : (n : ℕ) (xs : List ℕ) → drop 1 (drop n xs) ≡ drop (suc n) xs
drop-suc zero [] = refl
drop-suc zero (x ∷ xs) = refl
drop-suc (suc n) [] = refl
drop-suc (suc n) (x ∷ xs) = drop-suc n xs

-- A gap goes in at the end of the last eight.
record_gap-last_eight :
    (xs : List ℕ) (last now : ℕ)
    → record_gap (some last) now (last_eight xs) ≡ last_eight (xs ++ (now - last) ∷ [])
unfolding record_gap
record_gap-last_eight xs last now =
    let g = now - last in
    let n = length xs - 8 in
    let l = length-drop n xs in
    let a = length-append xs (g ∷ []) in
    elim (Bool-cases (leb 8 (length (drop n xs)))) [
      | inl e ↦ rw e (
          ap (λ (t : List ℕ). t ++ g ∷ []) (drop-suc n xs)
          ∙ sym (drop-append (suc n) xs (g ∷ []) (ground arith))
          ∙ ap (λ k. drop k (xs ++ g ∷ [])) {x = suc n} (ground arith))
      | inr e ↦ rw e (
          sym (drop-append n xs (g ∷ []) (omega arith))
          ∙ ap (λ k. drop k (xs ++ g ∷ [])) (ground arith))
    ]

session-ring :
    (last : Option ℕ) (ring : List ℕ) (before : Option TtlForecast) (xs : List ℕ)
    (requests : List (ℕ × Option TtlForecast))
    → ring ≡ last_eight xs
    → (session
        (record { last_request_ts = last; gap_ring = ring; last_forecast = before })
        requests).gap_ring
      ≡ last_eight (xs ++ gaps_from last requests)
unfolding session forecast_ttl record_gap
session-ring none ring before xs [] h = h ∙ ap last_eight (sym (append-nil xs))
session-ring (some last) ring before xs [] h = h ∙ ap last_eight (sym (append-nil xs))
session-ring none ring before xs ((now, hint) ∷ requests) h =
    session-ring (some now) ring _ xs requests h
session-ring (some last) ring before xs ((now, hint) ∷ requests) h =
    session-ring (some now) (record_gap (some last) now ring) _ (xs ++ (now - last) ∷ []) requests
      (ap (record_gap (some last) now) h ∙ record_gap-last_eight xs last now)
    ∙ ap last_eight (append_assoc xs ((now - last) ∷ []) (gaps_from (some now) requests))

-- After any session the ring is the last eight of all the gaps between its requests, in order.
pub session_ring :
    (requests : List (ℕ × Option TtlForecast))
    → (session no_requests requests).gap_ring ≡ last_eight (gaps_from none requests)
session_ring requests = session-ring none [] none [] requests refl
