-- ===== src/WritePolicy/Sequence.antt =====
-- Consecutive requests of one lane of src/write_policy.rs.
use ostk_cache.Prelude.{
  ℕ, ◌-◌, ◌≤◌, ◌<◌, ◌≡◌, ◌∙◌, ◌↔◌, refl, Bool, true, false, List, [], ◌∷◌, Option, none, some,
  arith, All,
}
use ostk_cache.WritePolicy.{
  F64, Params, u64_max, as_secs, warm, LaneState, fresh, PolicyDecision, gap_since, is_warm,
  observe, settle, prepare, decide, start_ttl,
}
use ostk_cache.WritePolicy.Invariant.{
  IsValid, fresh-IsValid, decide-IsValid, Terms, decide-Accounts, as_secs_cases,
}

module _ (F : F64) where
  open F use {Float}

  settle-warm_iff :
      (w : Bool) (lane : LaneState) (now : ℕ) (gap : Option ℕ) (params : Params Float)
      → ((settle F w lane now gap params).1.class ≡ warm) ↔ (w ≡ true)
  unfolding settle
  settle-warm_iff true lane now gap params = ground arith
  settle-warm_iff false lane now gap params = ground arith

  -- What a lane with a committed prefix becomes under a prompt that has not shrunk.
  prepare_grown :
      (lane : LaneState) (last now p : ℕ)
      → IsValid lane
      → lane.last_ts ≡ some last
      → 0 < lane.ttl_s
      → lane.p_obs ≤ p
      → ((prepare F lane now p).c ≡ lane.c) × ((prepare F lane now p).ttl_s ≡ lane.ttl_s)
  unfolding prepare
  prepare_grown lane last now p v e pos grown = ground arith

  class-decide :
      (lane : LaneState) (now p : ℕ) (params : Params Float)
      → ((decide F lane now p params).1.class ≡ warm)
        ↔ (is_warm (prepare F lane now p) (gap_since lane.last_ts now) ≡ true)
  unfolding decide
  class-decide lane now p params =
      settle-warm_iff (is_warm (prepare F lane now p) (gap_since lane.last_ts now))
        (prepare F lane now p) now (gap_since lane.last_ts now) params

  is_warm_after :
      (lane : LaneState) (last now p : ℕ)
      → lane.last_ts ≡ some last
      → (is_warm (prepare F lane now p) (gap_since lane.last_ts now) ≡ true)
        ↔ ((0 < (prepare F lane now p).c) × (now - last < (prepare F lane now p).ttl_s))
  is_warm_after lane last now p e = rw e (unfold is_warm gap_since in ground arith)

  warm_by_gap :
      (lane : LaneState) (last now p : ℕ) (params : Params Float)
      → IsValid lane
      → lane.last_ts ≡ some last
      → 0 < lane.ttl_s
      → lane.p_obs ≤ p
      → ((decide F lane now p params).1.class ≡ warm) ↔ ((0 < lane.c) × (now - last < lane.ttl_s))
  warm_by_gap lane last now p params v e pos grown = ground (
    arith,
    prepare_grown lane last now p v e pos grown,
    class-decide lane now p params,
    is_warm_after lane last now p e,
  )

  p_obs-settle :
      (w : Bool) (lane : LaneState) (now : ℕ) (gap : Option ℕ) (params : Params Float)
      → (settle F w lane now gap params).0.p_obs ≡ lane.p_obs
  unfolding settle
  p_obs-settle true lane now gap params = refl
  p_obs-settle false lane now gap params = refl

  p_obs-observe : (last : Option ℕ) (lane : LaneState) (p : ℕ) → (observe F last lane p).p_obs ≡ p
  unfolding observe
  p_obs-observe none lane p = refl
  p_obs-observe (some t) lane p = ground arith

  p_obs-decide :
      (lane : LaneState) (now p : ℕ) (params : Params Float)
      → (decide F lane now p params).0.p_obs ≡ p
  unfolding decide
  p_obs-decide lane now p params =
      p_obs-settle (is_warm (prepare F lane now p) (gap_since lane.last_ts now))
        (prepare F lane now p) now (gap_since lane.last_ts now) params
      ∙ p_obs-observe lane.last_ts (record lane { ttl_s = start_ttl lane.ttl_s }) p

  ttl_pos :
      (lane : LaneState) (now p : ℕ) (params : Params Float)
      → IsValid lane
      → 0 < (decide F lane now p params).0.ttl_s
  ttl_pos lane now p params v = ground (
    arith,
    (decide-Accounts F lane now p params v).lifetime,
    as_secs_cases (decide F lane now p params).1.tier,
  )

  -- The next request after a decision, at `now'` and with a prompt that has not shrunk, is WARM
  -- exactly when a prefix was committed and the gap is shorter than the lifetime of the tier which
  -- that decision chose.
  pub warm_iff :
      (lane : LaneState) (now p : ℕ) (params : Params Float) (now' p' : ℕ)
      → params.cold_cap ≤ u64_max
      → IsValid lane
      → p ≤ p'
      → ((decide F (decide F lane now p params).0 now' p' params).1.class ≡ warm) ↔ (
          (0 < (decide F lane now p params).0.s)
          × (now' - now < as_secs (decide F lane now p params).1.tier))
  warm_iff lane now p params now' p' bound v grown =
      let a = decide-Accounts F lane now p params v in
      ground (
        arith,
        a.all_committed,
        a.lifetime,
        warm_by_gap (decide F lane now p params).0 now now' p' params
            (decide-IsValid F lane now p params bound v) a.stamped (ttl_pos lane now p params v)
            (omega (arith, p_obs-decide lane now p params)),
      )

  -- The decisions of a lane for its requests, each a time and an observed prompt size.
  pub serve : Params Float → LaneState → List (ℕ × ℕ) → LaneState × List PolicyDecision
  serve params lane [] = (lane, [])
  serve params lane ((now, p) ∷ rest) =
      let (lane', d) = decide F lane now p params in
      let (last, ds) = serve params lane' rest in (last, d ∷ ds)

  serve-Terms :
      (params : Params Float) (lane : LaneState) (requests : List (ℕ × ℕ))
      → params.cold_cap ≤ u64_max
      → IsValid lane
      → IsValid (serve params lane requests).0
        × All (λ d. Terms F params d d.class) (serve params lane requests).1
  unfolding serve
  serve-Terms params lane [] bound v = (v, tt)
  serve-Terms params lane ((now, p) ∷ rest) bound v =
      let next =
        serve-Terms params (decide F lane now p params).0 rest bound
          (decide-IsValid F lane now p params bound v) in
      (next.0, ((decide-Accounts F lane now p params v).terms, next.1))

  -- With the cap a `u64`, whatever requests a new lane gets, it stays valid, its WARM decisions set no target, and each
  -- DEAD one reads nothing and writes its target, which is within the cold-write cap.
  pub serve_from_fresh :
      (params : Params Float) (requests : List (ℕ × ℕ))
      → params.cold_cap ≤ u64_max
      → IsValid (serve params fresh requests).0
        × All (λ d. Terms F params d d.class) (serve params fresh requests).1
  serve_from_fresh params requests bound = serve-Terms params fresh requests bound fresh-IsValid
