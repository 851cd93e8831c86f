-- ===== src/Rebuild/SoftCap/Outcome.antt =====
-- How a soft-cap reduction of src/rebuild.rs ends.
use ostk_cache.Prelude.{
  ℕ, suc, ◌≡◌, ◌≢◌, refl, true, false, not, ◌||◌, arith, leb, ◌==◌, Bool-cases, inl, inr,
}
use ostk_cache.Json.{Value}
use ostk_cache.Size.{Printer}
use ostk_cache.Rebuild.SoftCap.Tiers.{eject_all_inv, prune_loop_inv}
use ostk_cache.Rebuild.SoftCap.{
  ReductionReport, drop_unreferenced_tools, current_body_size, eject_large_tool_results,
  prune_oldest_inflight_pairs, no_reduction, message_count, tier_b, tier_c, tier_d,
  enforce_soft_cap,
}

-- The part of a report that no tier but the last changes.
record Running (before : ℕ) (r : ReductionReport) : Type 0 where
  before_kept : r.bytes_before ≡ before
  not_given_up : r.irreducible ≡ false

-- The report of a finished reduction: its sizes are those of the body before and after, and it has
-- given up exactly when the body is above the limit.
pub record Finished (out : Printer) (before limit : ℕ) (value : Value) (r : ReductionReport)
    : Type 0 where
  pub before_is : r.bytes_before ≡ before
  pub after_is : r.bytes_after ≡ current_body_size out value
  pub gives_up : r.irreducible ≡ not (leb (current_body_size out value) limit)

module _ (out : Printer) where
  tools-Running :
      (before : ℕ) (value : Value) (r : ReductionReport)
      → Running before r
      → Running before (drop_unreferenced_tools value r).1
  unfolding drop_unreferenced_tools
  tools-Running before value r h = ground arith

  eject-Running :
      (limit before : ℕ) (value : Value) (r : ReductionReport)
      → Running before r
      → Running before (eject_large_tool_results out value limit r).1
  unfolding eject_large_tool_results
  eject-Running limit before value r h =
      eject_all_inv out limit (λ _ s. Running before s)
        (λ v c s k. record { before_kept = k.before_kept; not_given_up = k.not_given_up }) _ value r
        h

  prune-Running :
      (limit before : ℕ) (value : Value) (r : ReductionReport)
      → Running before r
      → Running before (prune_oldest_inflight_pairs out value limit r).1
  unfolding prune_oldest_inflight_pairs
  prune-Running limit before value r h =
      prune_loop_inv out limit (λ _ s. Running before s)
        (λ v v' s e k. record { before_kept = k.before_kept; not_given_up = k.not_given_up })
        (suc (message_count out value)) value r h

  tier_d-Finished :
      (before limit : ℕ) (value : Value) (r : ReductionReport)
      → Running before r
      → r.bytes_after ≡ current_body_size out value
      → Finished out before limit (tier_d out limit (value, r)).0 (tier_d out limit (value, r)).1
  unfolding tier_d
  tier_d-Finished before limit value r h a = ground arith

  fits-Finished :
      (before limit : ℕ) (value : Value) (r : ReductionReport)
      → Running before r
      → r.bytes_after ≡ current_body_size out value
      → leb r.bytes_after limit ≡ true
      → Finished out before limit value r
  fits-Finished before limit value r h a f = ground arith

  tier_c-Finished :
      (before limit : ℕ) (value : Value) (r : ReductionReport)
      → Running before r
      → r.bytes_after ≡ current_body_size out value
      → Finished out before limit (tier_c out limit (value, r)).0 (tier_c out limit (value, r)).1
  unfolding tier_c
  tier_c-Finished before limit value r h a = elim (Bool-cases (leb r.bytes_after limit)) [
    | inl f ↦ rw f (fits-Finished before limit value r h a f)
    | inr m ↦
        let k = tools-Running before value r h in
        rw m (
          tier_d-Finished before limit _ _
            (record { before_kept = k.before_kept; not_given_up = k.not_given_up }) refl)
  ]

  tier_b-Finished :
      (before limit : ℕ) (value : Value) (r : ReductionReport)
      → Running before r
      → r.bytes_after ≡ current_body_size out value
      → Finished out before limit (tier_b out limit (value, r)).0 (tier_b out limit (value, r)).1
  unfolding tier_b
  tier_b-Finished before limit value r h a = elim (Bool-cases (leb r.bytes_after limit)) [
    | inl f ↦ rw f (fits-Finished before limit value r h a f)
    | inr m ↦
        let k = prune-Running limit before value r h in
        rw m (
          tier_c-Finished before limit _ _
            (record { before_kept = k.before_kept; not_given_up = k.not_given_up }) refl)
  ]

  -- With a limit, the report of a reduction has the sizes of the body before and after it, and says
  -- that it gave up exactly when the body that it returns is above the limit.
  pub enforce-Finished :
      (value : Value) (limit : ℕ)
      → limit ≢ 0
      → Finished out
          (current_body_size out value)
          limit
          (enforce_soft_cap out value limit).0
          (enforce_soft_cap out value limit).1
  unfolding enforce_soft_cap
  enforce-Finished value limit ne =
      let z : (limit == 0) ≡ false = ground arith in
      let start : Running (current_body_size out value) (no_reduction out value) = record {
        before_kept = refl;
        not_given_up = refl;
      } in
      elim (Bool-cases (leb (current_body_size out value) limit)) [
        | inl f ↦ rw (z, f) (record { before_is = refl; after_is = refl; gives_up = rw f refl })
        | inr m ↦
            let k =
              eject-Running limit (current_body_size out value) value (no_reduction out value)
                start in
            rw (z, m)
              (tier_b-Finished (current_body_size out value) limit _ _
                (record { before_kept = k.before_kept; not_given_up = k.not_given_up }) refl)
      ]

  -- A limit of zero, or a body within the limit, leaves the body as it is and reports no reduction.
  pub enforce_noop :
      (value : Value) (limit : ℕ)
      → (limit == 0 || leb (current_body_size out value) limit) ≡ true
      → enforce_soft_cap out value limit ≡ (value, no_reduction out value)
  unfolding enforce_soft_cap
  enforce_noop value limit h = rw h
