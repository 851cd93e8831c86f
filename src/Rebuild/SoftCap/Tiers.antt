-- ===== src/Rebuild/SoftCap/Tiers.antt =====
-- The invariant rules of the two loops of the soft-cap reduction of src/rebuild.rs, and the end of
-- the second.
use ostk_cache.Prelude.{
  ℕ, zero, suc, ◌+◌, ◌<◌, ◌≡◌, ◌⊎◌, ap, ◌∙◌, true, List, [], ◌∷◌, none, some, arith, leb,
  Bool-cases, Option-cases, inl, inr, length, length-drop,
}
use ostk_cache.Json.{Value, get_array, update_array}
use ostk_cache.Json.Laws.{get_array-update_array, map_list}
use ostk_cache.Size.{Printer}
use ostk_cache.Rebuild.SoftCap.{
  ReductionReport, Candidate, current_body_size, reaches, eject, eject_all, is_pair, find_pair,
  prune_idx, drain_pair, prune_once, prune_loop, message_count, prune_oldest_inflight_pairs,
}

module _ (out : Printer) (limit : ℕ) (P : Value → ReductionReport → Type 0) where
  -- What one ejection keeps, the loop of Tier A keeps.
  pub eject_all_inv :
      ((v : Value) (c : Candidate) (r : ReductionReport)
        → P v r
        → P (eject out v c) (record r {
          tier_a_ejected = r.tier_a_ejected + 1;
          tier_a_bytes_recovered = r.tier_a_bytes_recovered + c.size;
        }))
      → (cs : List Candidate) (v : Value) (r : ReductionReport) → P v r
      → P (eject_all out limit cs v r).0 (eject_all out limit cs v r).1
  unfolding eject_all
  eject_all_inv step [] v r h = h
  eject_all_inv step (c ∷ cs) v r h = elim (Bool-cases (leb (current_body_size out v) limit)) [
    | inl fits ↦ rw fits h
    | inr more ↦ elim (Bool-cases (reaches out v c)) [
      | inl hit ↦ rw (more, hit) (eject_all_inv step cs _ _ (step v c r h))
      | inr miss ↦ rw (more, miss) (eject_all_inv step cs v r h)
    ]
  ]

  -- What taking out one pair keeps, the loop of Tier B keeps.
  pub prune_loop_inv :
      ((v v' : Value) (r : ReductionReport)
        → prune_once v ≡ some v'
        → P v r
        → P v' (record r { tier_b_pairs_pruned = r.tier_b_pairs_pruned + 1 }))
      → (fuel : ℕ) (v : Value) (r : ReductionReport) → P v r
      → P (prune_loop out fuel v limit r).0 (prune_loop out fuel v limit r).1
  unfolding prune_loop
  prune_loop_inv step zero v r h = h
  prune_loop_inv step (suc fuel) v r h = elim (Bool-cases (leb (current_body_size out v) limit)) [
    | inl fits ↦ rw fits h
    | inr more ↦ elim (Option-cases (prune_once v)) [
      | inl e ↦ rw (more, e) h
      | inr (v', e) ↦ rw (more, e) (prune_loop_inv step fuel v' _ (step v v' r e h))
    ]
  ]

find_pair_room : (ms : List Value) (i : ℕ) → find_pair ms ≡ some i → i + 2 < length ms
unfolding find_pair
find_pair_room [] i e = cc
find_pair_room (a ∷ []) i e = cc
find_pair_room (a ∷ u ∷ []) i e = cc
find_pair_room (a ∷ u ∷ x ∷ rest) i e = elim (Bool-cases (is_pair a u)) [
  | inl p ↦ ground arith
  | inr n ↦ elim (Option-cases (find_pair (u ∷ x ∷ rest))) [
    | inl z ↦ absurd (ground arith)
    | inr (j, z) ↦ ground (arith, find_pair_room (u ∷ x ∷ rest) j z)
  ]
]

prune_idx_room : (ms : List Value) (i : ℕ) → prune_idx ms ≡ some i → (0 < i) × (i + 2 < length ms)
unfolding prune_idx
prune_idx_room [] i e = cc
prune_idx_room (m ∷ ms) i e = elim (Option-cases (find_pair ms)) [
  | inl z ↦ absurd (ground arith)
  | inr (j, z) ↦ ground (arith, find_pair_room ms j z)
]

length-drain_pair :
    (i : ℕ) (ms : List Value) → i + 1 < length ms → length (drain_pair i ms) + 2 ≡ length ms
unfolding drain_pair
length-drain_pair zero ms h = omega (arith, length-drop 2 ms)
length-drain_pair (suc i) [] h = absurd (omega arith)
length-drain_pair (suc i) (m ∷ ms) h = omega (arith, length-drain_pair i ms (omega arith))

-- A round takes two messages out, and leaves at least two.
pub record Round (v v' : Value) : Type 0 where
  pub messages : List Value
  pub index : ℕ
  pub had : get_array "messages" v ≡ some messages
  pub chosen : prune_idx messages ≡ some index
  pub wrote : v' ≡ update_array "messages" (drain_pair index) v
  pub has : get_array "messages" v' ≡ some (drain_pair index messages)

pub prune_once-Round : (v v' : Value) → prune_once v ≡ some v' → Round v v'
unfolding prune_once
prune_once-Round v v' e = elim (Option-cases (get_array "messages" v)) [
  | inl z ↦ absurd (ground arith)
  | inr (ms, z) ↦ elim (Option-cases (prune_idx ms)) [
    | inl y ↦ absurd (ground arith)
    | inr (i, y) ↦
        let w : v' ≡ update_array "messages" (drain_pair i) v = ground arith in
        record {
          messages = ms;
          index = i;
          had = z;
          chosen = y;
          wrote = w;
          has =
              ap (get_array "messages") w
              ∙ get_array-update_array "messages" (drain_pair i) v
              ∙ ap (map_list (drain_pair i)) z;
        }
  ]
]

module _ (out : Printer) where
  count_some :
      (v : Value) (ms : List Value)
      → get_array "messages" v ≡ some ms
      → message_count out v ≡ length ms
  unfolding message_count
  count_some v ms e = ground arith

  prune_once_count :
      (v v' : Value) → prune_once v ≡ some v' → message_count out v' + 2 ≡ message_count out v
  prune_once_count v v' e =
      let r = prune_once-Round v v' e in
      omega (
        arith,
        count_some v r.messages r.had,
        count_some v' (drain_pair r.index r.messages) r.has,
        length-drain_pair r.index r.messages
            (omega (arith, prune_idx_room r.messages r.index r.chosen)),
      )

  prune_loop_ends :
      (fuel limit : ℕ) (v : Value) (r : ReductionReport)
      → message_count out v < fuel
      → (leb (current_body_size out (prune_loop out fuel v limit r).0) limit ≡ true)
        ⊎ (prune_once (prune_loop out fuel v limit r).0 ≡ none)
  unfolding prune_loop
  prune_loop_ends zero limit v r h = absurd (omega arith)
  prune_loop_ends (suc fuel) limit v r h = elim (Bool-cases (leb (current_body_size out v) limit)) [
    | inl fits ↦ rw fits (inl fits)
    | inr more ↦ elim (Option-cases (prune_once v)) [
      | inl e ↦ rw (more, e) (inr e)
      | inr (v', e) ↦
          rw (more, e) (prune_loop_ends fuel limit v' _ (omega (arith, prune_once_count v v' e)))
    ]
  ]

  -- The fuel is enough: the loop ends by its own tests.
  prune_ends :
      (v : Value) (limit : ℕ) (r : ReductionReport)
      → (leb (current_body_size out (prune_oldest_inflight_pairs out v limit r).0) limit ≡ true)
        ⊎ (prune_once (prune_oldest_inflight_pairs out v limit r).0 ≡ none)
  unfolding prune_oldest_inflight_pairs
  prune_ends v limit r = prune_loop_ends (suc (message_count out v)) limit v r (omega arith)
