-- ===== src/Rebuild/SoftCap/Tools.antt =====
-- Tier C of the soft-cap reduction of src/rebuild.rs: the tools that a request keeps. Last, what Tier B does to the only pair.
use ostk_cache.Prelude.{
  ◌+◌, ◌-◌, ◌≡◌, inl, inr, sym, ap, ◌∙◌, subst, Bool, true, false, List, [], ◌∷◌, some, arith,
  length, length-retain-le, retain, Bool-cases, Option-cases,
}
use ostk_cache.Json.{Value, get_str, get_array, update_array}
use ostk_cache.Json.Laws.{get_array_of_get, get-update_array_ne, get_array-update_array, map_list}
use ostk_cache.Rebuild.Messages.{contains}
use ostk_cache.Rebuild.SoftCap.{
  ReductionReport, is_pair, find_pair, prune_idx, drain_pair, prune_once, referenced, keep_tool,
  drop_unreferenced_tools,
}
use ostk_cache.Rebuild.SoftCap.Called.{
  Filtered, done, unnamed, called, uncalled, referenced-Called, Called-referenced,
}
use ostk_cache.Rebuild.SoftCap.Written.{tools≢messages}

retain-hit :
    (p : Value → Bool) (t : Value) (ts : List Value)
    → p t ≡ true
    → retain p (t ∷ ts) ≡ t ∷ retain p ts
unfolding retain
retain-hit p t ts h = ground arith

retain-miss :
    (p : Value → Bool) (t : Value) (ts : List Value) → p t ≡ false → retain p (t ∷ ts) ≡ retain p ts
unfolding retain
retain-miss p t ts h = ground arith

retain-Filtered : (ms ts : List Value) → Filtered ms ts (retain (keep_tool (referenced ms)) ts)
unfolding keep_tool retain
retain-Filtered ms [] = done
retain-Filtered ms (t ∷ ts) =
    let p = keep_tool (referenced ms) in
    elim (Option-cases (get_str "name" t)) [
      | inl e ↦
          subst (Filtered ms (t ∷ ts)) (sym (retain-hit p t ts (ground arith)))
            (unnamed t ts (retain p ts) e (retain-Filtered ms ts))
      | inr (n, e) ↦ elim (Bool-cases (contains (referenced ms) n)) [
        | inl c ↦
            subst (Filtered ms (t ∷ ts)) (sym (retain-hit p t ts (ground arith)))
              (called t n ts (retain p ts) e (referenced-Called ms n c) (retain-Filtered ms ts))
        | inr c ↦ subst (Filtered ms (t ∷ ts)) (sym (retain-miss p t ts (ground arith))) (
            uncalled t n ts (retain p ts) e (λ k. absurd (ground (arith, Called-referenced n ms k)))
              (retain-Filtered ms ts))
      ]
    ]

-- What Tier C makes of a body with tools and messages.
pub record ToolsDropped (ts ms : List Value) (v : Value) (r : ReductionReport) : Type 0 where
  pub kept : List Value
  pub tools : get_array "tools" v ≡ some kept
  pub filtered : Filtered ms ts kept
  pub messages : get_array "messages" v ≡ some ms
  pub counted : length kept + r.tier_c_tools_dropped ≡ length ts

drop-written :
    (v : Value) (r : ReductionReport) (ts ms : List Value)
    → get_array "tools" v ≡ some ts
    → get_array "messages" v ≡ some ms
    → drop_unreferenced_tools v r ≡ (
      update_array "tools" (retain (keep_tool (referenced ms))) v,
      record r {
        tier_c_tools_dropped = length ts - length (retain (keep_tool (referenced ms)) ts);
      },
    )
unfolding drop_unreferenced_tools
drop-written v r ts ms t m = ground arith

-- Of a body with tools and messages, Tier C takes out the tools whose name no tool call of any
-- message has, and no other: a tool without a name stays. The order stays, the messages stay, and
-- the report counts the tools that are gone.
pub drop-ToolsDropped :
    (v : Value) (r : ReductionReport) (ts ms : List Value)
    → get_array "tools" v ≡ some ts
    → get_array "messages" v ≡ some ms
    → ToolsDropped ts ms (drop_unreferenced_tools v r).0 (drop_unreferenced_tools v r).1
drop-ToolsDropped v r ts ms t m =
    let f = retain (keep_tool (referenced ms)) in
    subst (λ x. ToolsDropped ts ms x.0 x.1) (sym (drop-written v r ts ms t m))
      (record {
        kept = f ts;
        tools = get_array-update_array "tools" f v ∙ ap (map_list f) t;
        filtered = retain-Filtered ms ts;
        messages =
            get_array_of_get "messages" _ v
              (get-update_array_ne "tools" "messages" f v tools≢messages)
            ∙ m;
        counted = omega (arith, length-retain-le (keep_tool (referenced ms)) ts);
      })

-- Where a request has four messages, of which the second calls tools and the third is their
-- results, a round of Tier B leaves the first and the fourth: the only pair goes.
pub only_pair_goes :
    (v m a u x : Value)
    → get_array "messages" v ≡ some (m ∷ a ∷ u ∷ x ∷ [])
    → is_pair a u ≡ true
    → (v' : Value) × (prune_once v ≡ some v') × (get_array "messages" v' ≡ some (m ∷ x ∷ []))
unfolding prune_once prune_idx find_pair drain_pair
only_pair_goes v m a u x e p = (
  update_array "messages" (drain_pair 1) v,
  ground arith,
  get_array-update_array "messages" (drain_pair 1) v ∙ ap (map_list (drain_pair 1)) e,
)
