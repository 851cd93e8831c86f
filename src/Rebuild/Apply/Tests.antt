-- ===== src/Rebuild/Apply/Tests.antt =====
-- Runs of `apply_rebuild` of src/rebuild.rs, with a composer that joins the sections.
use ostk_cache.Prelude.{
  ◌≡◌, refl, true, false, List, [], ◌∷◌, ◌++◌, some, String, codes, eqb, length, drop, Text,
  unwrap_or,
}
use ostk_cache.Json.{Value, str, array, object, nil, cons, end, entry, get_array, has_str}
use ostk_cache.Size.{Printer}
use ostk_cache.Rebuild.Messages.{find_cycle_boundary_idx, last_index, is_user, is_real_user_message}
use ostk_cache.Rebuild.Repair.{repair_orphaned_tool_results}
use ostk_cache.Rebuild.Apply.{
  FrozenSynthetic, Sections, RebuildConfig, RebuildReport, applied, Projection, synthetic_message,
  elide_one, elide, fit, apply_rebuild,
}
use ostk_cache.Rebuild.Apply.Elide.{Fits, fit_budget}
use ostk_cache.Rebuild.Apply.Rebuilt.{After, apply-After}
use ostk_cache.Rebuild.Apply.Served.{ServedBy, frozen_or_fitted}

abbrev printer : Printer
printer = record { to_string = λ v. some (codes "null"); one_decimal = λ a b. codes "1.0" }

abbrev joined : Projection
joined = record {
  Core = List Value;
  gather = λ ms. ms;
  compose = λ core s.
      codes "core" ++ (unwrap_or s.tail [] ++ (unwrap_or s.digests [] ++ unwrap_or s.templates []));
  envelope_is_some = λ core. false;
  native_len = λ core. 0;
  user_len = λ core. length core;
  fingerprint_value = λ v. 7;
}

abbrev full : Sections
full = record {
  templates = some (codes "tttt");
  tail = some (codes "tail");
  digests = some (codes "dddd");
}

abbrev frozen : FrozenSynthetic
frozen = record { text = codes "frozen"; boundary_fp = 7; boundary_idx = 2 }

abbrev config : RebuildConfig
config = record {
  enabled = true;
  frozen_synthetic = some frozen;
  compact_target_bytes = some 8;
  sections = full;
}

abbrev message : String → String → Value
message role text =
    object (entry "role" (str (codes role)) (entry "content" (str (codes text)) end))

abbrev turns : List Value
turns = message "user" "one" ∷ message "assistant" "ok" ∷ message "user" "two" ∷ []

abbrev request : Value
request = object (
    entry "messages"
      (array (
        cons (message "user" "one")
          (cons (message "assistant" "ok") (cons (message "user" "two") nil))))
      end)

request_messages : get_array "messages" request ≡ some turns
unfolding get_array
request_messages = refl

turns_boundary : find_cycle_boundary_idx turns ≡ some 2
unfolding find_cycle_boundary_idx last_index is_user is_real_user_message has_str get_array eqb
turns_boundary = refl

two_left_out : fit printer joined (some 8) turns full ≡ (codes "coredddd", 2)
unfolding fit elide elide_one
two_left_out = refl

apply-After_example :
    After printer joined config request
      (apply_rebuild printer joined request config).0
      (apply_rebuild printer joined request config).1
apply-After_example = apply-After printer joined request config

frozen_or_fitted_example :
    (text : Text) × (r : RebuildReport) × (get_array "messages"
        (apply_rebuild printer joined request config).0
      ≡ some (synthetic_message text ∷ (repair_orphaned_tool_results (drop 2 turns)).0))
    × ((apply_rebuild printer joined request config).1 ≡ applied r)
    × ServedBy printer joined config.frozen_synthetic config turns 2 text r.sections_elided
        r.served_frozen
frozen_or_fitted_example =
    frozen_or_fitted printer joined request config turns 1 refl request_messages turns_boundary

fit_budget_example :
    Fits printer joined 8 turns full
      (fit printer joined (some 8) turns full).0
      (fit printer joined (some 8) turns full).1
fit_budget_example = fit_budget printer joined 8 turns full
