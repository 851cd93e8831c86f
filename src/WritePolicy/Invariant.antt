-- ===== src/WritePolicy/Invariant.antt =====
-- The lane invariant of src/write_policy.rs, and what one call of `decide` promises.
use ostk_cache.Prelude.{
  ℕ, ◌+◌, ◌≤◌, ◌<◌, ◌≡◌, ◌⊎◌, inl, inr, refl, Bool, true, false, List, [], ◌∷◌, Option, none, some,
  arith, length, length-append, length-drop, drop,
}
use ostk_cache.WritePolicy.{
  F64, Params, TtlTier, ephemeral_5m, ephemeral_1h, u64_max, as_secs, LaneClass, warm, dead,
  LaneState, fresh, PolicyDecision, forecast_tier, push_gap, gap_since, is_warm, observe,
  compact_to, settle, prepare, decide, start_ttl,
}

pub record IsValid (lane : LaneState) : Type 0 where
  pub committed : lane.c ≤ lane.s
  pub in_range : lane.s ≤ u64_max
  pub ring : length lane.gaps ≤ 8
  pub ttl_known : (lane.ttl_s ≡ 0) ⊎ ((lane.ttl_s ≡ 300) ⊎ (lane.ttl_s ≡ 3600))

pub fresh-IsValid : IsValid fresh
fresh-IsValid = ground arith

push_gap-length : (g : Option ℕ) (gaps : List ℕ) → length gaps ≤ 8 → length (push_gap g gaps) ≤ 8
unfolding push_gap
push_gap-length none gaps h = h
push_gap-length (some g) gaps h =
    ground
      (arith, length-append gaps (g ∷ []), length-append (drop 1 gaps) (g ∷ []), length-drop 1 gaps)

pub as_secs_cases : (t : TtlTier) → (as_secs t ≡ 300) ⊎ (as_secs t ≡ 3600)
unfolding as_secs
as_secs_cases ephemeral_5m = inl refl
as_secs_cases ephemeral_1h = inr refl

module _ (F : F64) where
  open F use {Float}

  pub observe-IsValid :
      (last : Option ℕ) (lane : LaneState) (p : ℕ) → IsValid lane → IsValid (observe F last lane p)
  unfolding observe
  observe-IsValid none lane p v = ground arith
  observe-IsValid (some t) lane p v = ground arith

  pub prepare-IsValid :
      (lane : LaneState) (now p : ℕ) → IsValid lane → IsValid (prepare F lane now p)
  unfolding prepare
  prepare-IsValid lane now p v =
      let start : IsValid (record lane { ttl_s = start_ttl lane.ttl_s }) = ground arith in
      let seen =
        observe-IsValid lane.last_ts (record lane { ttl_s = start_ttl lane.ttl_s }) p start in
      record {
        committed = seen.committed;
        in_range = seen.in_range;
        ring = push_gap-length (gap_since lane.last_ts now) _ seen.ring;
        ttl_known = seen.ttl_known;
      }

  compact_to-le : (s : ℕ) (params : Params Float) → compact_to F s params ≤ params.cold_cap
  unfolding compact_to
  compact_to-le s params = ground arith

  settle-IsValid :
      (w : Bool) (lane : LaneState) (now : ℕ) (gap : Option ℕ) (params : Params Float)
      → params.cold_cap ≤ u64_max
      → IsValid lane
      → IsValid (settle F w lane now gap params).0
  unfolding settle
  settle-IsValid true lane now gap params bound v =
      ground (arith, as_secs_cases (forecast_tier lane.gaps))
  settle-IsValid false lane now gap params bound v =
      ground (arith, as_secs_cases (forecast_tier lane.gaps), compact_to-le lane.s params)

  -- With the cap a `u64`, a call keeps the invariant: the committed prefix is within the simulated
  -- one, which fits 64 bits, the ring holds at most eight gaps, and the lifetime in effect is
  -- unset, five minutes or an hour.
  pub decide-IsValid :
      (lane : LaneState) (now p : ℕ) (params : Params Float)
      → params.cold_cap ≤ u64_max
      → IsValid lane
      → IsValid (decide F lane now p params).0
  unfolding decide
  decide-IsValid lane now p params bound v =
      settle-IsValid (is_warm (prepare F lane now p) (gap_since lane.last_ts now))
        (prepare F lane now p) now (gap_since lane.last_ts now) params bound
        (prepare-IsValid lane now p v)

  abbrev pub Terms : Params Float → PolicyDecision → LaneClass → Type 0
  Terms params d warm = d.compact_target ≡ none
  Terms params d dead =
      (d.expected_read ≡ 0)
      × (d.compact_target ≡ some d.expected_write)
      × (d.expected_write ≤ params.cold_cap)

  -- What a decision says about the lane it leaves.
  pub record Accounts (params : Params Float) (now : ℕ) (lane : LaneState) (d : PolicyDecision)
      : Type 0 where
    pub whole : d.expected_read + d.expected_write ≡ lane.s
    pub all_committed : lane.c ≡ lane.s
    pub lifetime : lane.ttl_s ≡ as_secs d.tier
    pub stamped : lane.last_ts ≡ some now
    pub terms : Terms params d d.class

  settle-Accounts :
      (w : Bool) (lane : LaneState) (now : ℕ) (gap : Option ℕ) (params : Params Float)
      → lane.c ≤ lane.s
      → Accounts params now (settle F w lane now gap params).0 (settle F w lane now gap params).1
  unfolding settle
  settle-Accounts true lane now gap params h = ground arith
  settle-Accounts false lane now gap params h = ground (arith, compact_to-le lane.s params)

  -- Of a valid lane the expected read and write add up to the prefix, all of which is committed;
  -- the lane's lifetime is that of the tier chosen; a WARM decision sets no target; a DEAD one
  -- reads nothing and writes its target, which is within the cold-write cap.
  pub decide-Accounts :
      (lane : LaneState) (now p : ℕ) (params : Params Float)
      → IsValid lane
      → Accounts params now (decide F lane now p params).0 (decide F lane now p params).1
  unfolding decide
  decide-Accounts lane now p params v =
      settle-Accounts (is_warm (prepare F lane now p) (gap_since lane.last_ts now))
        (prepare F lane now p) now (gap_since lane.last_ts now) params
        (prepare-IsValid lane now p v).committed

  settle_floor :
      (w : Bool) (lane : LaneState) (now : ℕ) (gap : Option ℕ) (params : Params Float)
      → params.min_prefix ≤ params.cold_cap
      → 0 < lane.s
      → (settle F w lane now gap params).1.class ≡ dead
      → params.min_prefix ≤ (settle F w lane now gap params).1.expected_write
  unfolding settle
  settle_floor true lane now gap params h pos isdead = cc
  settle_floor false lane now gap params h pos isdead = ground arith

  -- A DEAD decision on a lane with a prefix does not go below the floor, if the cap allows it.
  pub dead_floor :
      (lane : LaneState) (now p : ℕ) (params : Params Float)
      → params.min_prefix ≤ params.cold_cap
      → 0 < (prepare F lane now p).s
      → (decide F lane now p params).1.class ≡ dead
      → params.min_prefix ≤ (decide F lane now p params).1.expected_write
  unfolding decide
  dead_floor lane now p params h pos isdead =
      settle_floor (is_warm (prepare F lane now p) (gap_since lane.last_ts now))
        (prepare F lane now p) now (gap_since lane.last_ts now) params h pos isdead
