-- ===== src/Rebuild/SoftCap/Pairs.antt =====
-- The soft-cap reduction of src/rebuild.rs keeps every tool result answering the message before it.
use ostk_cache.Prelude.{
  ℕ, suc, ◌≡◌, refl, ap, ◌∙◌, sym, true, List, [], ◌∷◌, none, some, Text, arith, leb, ◌==◌,
  Bool-cases, Option-cases, inl, inr, subst, ◌||◌, all, modify_at, retain,
}
use ostk_cache.Json.{Value, get, get_array}
use ostk_cache.Json.Laws.{get_array_of_get, get-update_array_ne, get_array-update_array, map_list}
use ostk_cache.Size.{Printer}
use ostk_cache.Rebuild.Messages.{
  is_tool_result, is_tool_use, use_ids, collect_tool_use_ids, message_only_tool_results,
}
use ostk_cache.Rebuild.Repair.Strip.{paired, answers_mono, nothing_contained, use_not_result}
use ostk_cache.Rebuild.Repair.Paired.{Paired, paired-Paired, Paired-paired}
use ostk_cache.Rebuild.SoftCap.{
  ReductionReport, Candidate, is_pair, find_pair, prune_idx, drain_pair, prune_once, referenced,
  keep_tool, drop_unreferenced_tools, current_body_size, stub, eject, eject_large_tool_results,
  prune_oldest_inflight_pairs, message_count, no_reduction, tier_b, tier_c, tier_d,
  enforce_soft_cap,
}
use ostk_cache.Rebuild.SoftCap.Tiers.{eject_all_inv, prune_loop_inv, prune_once-Round}
use ostk_cache.Rebuild.SoftCap.Written.{tools≢messages, write_block, paired_written}

results_call_nothing : (bs : List Value) → all is_tool_result bs ≡ true → use_ids bs ≡ []
unfolding use_ids all
results_call_nothing [] h = refl
results_call_nothing (b ∷ bs) h = elim (Bool-cases (is_tool_use b)) [
  | inl u ↦ absurd (ground (arith, use_not_result b u))
  | inr n ↦ ground (arith, results_call_nothing bs)
]

only_results-calls : (m : Value) → message_only_tool_results m ≡ true → collect_tool_use_ids m ≡ []
unfolding message_only_tool_results collect_tool_use_ids
only_results-calls m h = elim (Option-cases (get_array "content" m)) [
  | inl e ↦ ground arith
  | inr ([], e) ↦ absurd (ground arith)
  | inr (b ∷ bs, e) ↦ ground (arith, results_call_nothing (b ∷ bs))
]

pair_calls : (a u : Value) → is_pair a u ≡ true → collect_tool_use_ids u ≡ []
unfolding is_pair
pair_calls a u h = only_results-calls u (ground arith)

drained_here :
    (ids : List Text) (a u x : Value) (rest : List Value)
    → is_pair a u ≡ true
    → paired ids (a ∷ u ∷ x ∷ rest) ≡ true
    → paired ids (x ∷ rest) ≡ true
unfolding paired
drained_here ids a u x rest p h = ground (
  arith,
  answers_mono (collect_tool_use_ids u) ids
      (λ id. nothing_contained (collect_tool_use_ids u) ids id (pair_calls a u p)) x,
)

find_pair-paired :
    (ids : List Text) (ms : List Value) (i : ℕ)
    → find_pair ms ≡ some i
    → paired ids ms ≡ true
    → paired ids (drain_pair i ms) ≡ true
unfolding find_pair paired drain_pair
find_pair-paired ids [] i e h = cc
find_pair-paired ids (a ∷ []) i e h = cc
find_pair-paired ids (a ∷ u ∷ []) i e h = cc
find_pair-paired ids (a ∷ u ∷ x ∷ rest) i e h = elim (Bool-cases (is_pair a u)) [
  | inl p ↦
      let z : 0 ≡ i = ground arith in
      subst (λ k. paired ids (drain_pair k (a ∷ u ∷ x ∷ rest)) ≡ true) z
        (drained_here ids a u x rest p h)
  | inr n ↦ elim (Option-cases (find_pair (u ∷ x ∷ rest))) [
    | inl y ↦ absurd (ground arith)
    | inr (j, y) ↦
        let z : suc j ≡ i = ground arith in
        subst (λ k. paired ids (drain_pair k (a ∷ u ∷ x ∷ rest)) ≡ true) z
          (ground (arith, find_pair-paired (collect_tool_use_ids a) (u ∷ x ∷ rest) j y))
  ]
]

prune_idx-paired :
    (ids : List Text) (ms : List Value) (i : ℕ)
    → prune_idx ms ≡ some i
    → paired ids ms ≡ true
    → paired ids (drain_pair i ms) ≡ true
unfolding prune_idx paired drain_pair
prune_idx-paired ids [] i e h = cc
prune_idx-paired ids (m ∷ ms) i e h = elim (Option-cases (find_pair ms)) [
  | inl y ↦ absurd (ground arith)
  | inr (j, y) ↦
      let z : suc j ≡ i = ground arith in
      subst (λ k. paired ids (drain_pair k (m ∷ ms)) ≡ true) z
        (ground (arith, find_pair-paired (collect_tool_use_ids m) ms j y))
]

-- The messages of a request, each answering the one before it.
pub record PairedBody (v : Value) : Type 0 where
  pub messages : List Value
  pub are : get_array "messages" v ≡ some messages
  pub pairs : Paired [] messages

drop-get_messages :
    (v : Value) (r : ReductionReport)
    → get "messages" (drop_unreferenced_tools v r).0 ≡ get "messages" v
unfolding drop_unreferenced_tools
drop-get_messages v r = elim (Option-cases (get_array "tools" v)) [
  | inl e ↦ ground arith
  | inr (ts, e) ↦
      let names = elim (get_array "messages" v) as (λ _. List Text) [
        | none ↦ []
        | some ms ↦ referenced ms
      ] in
      ground
        (arith, get-update_array_ne "tools" "messages" (retain (keep_tool names)) v tools≢messages)
]

tools-PairedBody :
    (v : Value) (r : ReductionReport) → PairedBody v → PairedBody (drop_unreferenced_tools v r).0
tools-PairedBody v r h = record {
  messages = h.messages;
  are = get_array_of_get "messages" _ v (drop-get_messages v r) ∙ h.are;
  pairs = h.pairs;
}

module _ (out : Printer) where
  eject-PairedBody : (v : Value) (c : Candidate) → PairedBody v → PairedBody (eject out v c)
  unfolding eject
  eject-PairedBody v c h =
      let f = modify_at c.message (write_block c.block (stub out c.size)) in
      record {
        messages = f h.messages;
        are = get_array-update_array "messages" f v ∙ ap (map_list f) h.are;
        pairs = paired-Paired [] (f h.messages) (
            paired_written [] c.message c.block (stub out c.size) h.messages
            ∙ Paired-paired [] h.messages h.pairs);
      }

  round-PairedBody : (v v' : Value) → prune_once v ≡ some v' → PairedBody v → PairedBody v'
  round-PairedBody v v' e h =
      let r = prune_once-Round v v' e in
      let same : h.messages ≡ r.messages = cc (h.are, r.had) in
      record {
        messages = drain_pair r.index r.messages;
        are = r.has;
        pairs = paired-Paired [] (drain_pair r.index r.messages) (
            prune_idx-paired [] r.messages r.index r.chosen
              (ap (paired []) (sym same) ∙ Paired-paired [] h.messages h.pairs));
      }

  tier_d-PairedBody :
      (limit : ℕ) (v : Value) (r : ReductionReport)
      → PairedBody v
      → PairedBody (tier_d out limit (v, r)).0
  unfolding tier_d
  tier_d-PairedBody limit v r h = elim (Bool-cases (leb r.bytes_after limit)) [
    | inl f ↦ rw f h
    | inr m ↦ rw m h
  ]

  tier_c-PairedBody :
      (limit : ℕ) (v : Value) (r : ReductionReport)
      → PairedBody v
      → PairedBody (tier_c out limit (v, r)).0
  unfolding tier_c
  tier_c-PairedBody limit v r h = elim (Bool-cases (leb r.bytes_after limit)) [
    | inl f ↦ rw f h
    | inr m ↦ rw m (tier_d-PairedBody limit _ _ (tools-PairedBody v r h))
  ]

  tier_b-PairedBody :
      (limit : ℕ) (v : Value) (r : ReductionReport)
      → PairedBody v
      → PairedBody (tier_b out limit (v, r)).0
  unfolding tier_b prune_oldest_inflight_pairs
  tier_b-PairedBody limit v r h = elim (Bool-cases (leb r.bytes_after limit)) [
    | inl f ↦ rw f h
    | inr m ↦ rw m (
        tier_c-PairedBody limit _ _ (
          prune_loop_inv out limit (λ w _. PairedBody w) (λ a b s e k. round-PairedBody a b e k)
            (suc (message_count out v)) v r h))
  ]

  -- A body whose tool results all answer the message before them is reduced to such a body, through
  -- every tier and whatever the limit.
  pub enforce-PairedBody :
      (v : Value) (limit : ℕ) → PairedBody v → PairedBody (enforce_soft_cap out v limit).0
  unfolding enforce_soft_cap eject_large_tool_results
  enforce-PairedBody v limit h =
      elim (Bool-cases (limit == 0 || leb (current_body_size out v) limit)) [
        | inl f ↦ rw f h
        | inr m ↦ rw m (
            tier_b-PairedBody limit _ _ (
              eject_all_inv out limit (λ w _. PairedBody w) (λ a c s k. eject-PairedBody a c k) _ v
                (no_reduction out v) h))
      ]
