-- ===== src/Rebuild/Apply/Served.antt =====
-- Which text `apply_rebuild` of src/rebuild.rs serves: the frozen one, or one fitted to the budget.
use ostk_cache.Prelude.{
  ℕ, suc, ◌≡◌, ◌⊎◌, inl, inr, refl, sym, ap, ◌∙◌, subst, Bool, true, false, ◌&&◌, ◌==◌, List, ◌∷◌,
  Option, none, some, Text, arith, get_or, take, drop, Bool-cases,
}
use ostk_cache.Json.{Value, null, get_array}
use ostk_cache.Size.{Printer}
use ostk_cache.Rebuild.Messages.{find_cycle_boundary_idx}
use ostk_cache.Rebuild.Repair.{repair_orphaned_tool_results}
use ostk_cache.Rebuild.Apply.{
  FrozenSynthetic, RebuildConfig, RebuildReport, applied, Projection, Synthesis, synthetic_message,
  frozen_match, fit, synthesize, synthesis_at, project, rebuild_at, rebuild_messages, apply_rebuild,
}
use ostk_cache.Rebuild.Apply.Rebuilt.{project-served, apply-enabled}

module _ (out : Printer) (P : Projection) where
  open P use {gather, fingerprint_value}

  enabled-project :
      (req : Value) (config : RebuildConfig) (ms : List Value) (i : ℕ)
      → config.enabled ≡ true
      → get_array "messages" req ≡ some ms
      → find_cycle_boundary_idx ms ≡ some (suc i)
      → apply_rebuild out P req config ≡ project out P config req ms (suc i)
  unfolding rebuild_messages rebuild_at
  enabled-project req config ms i on e b =
      apply-enabled out P req config on
      ∙ (ap (rebuild_messages out P config req) e ∙ ap (rebuild_at out P config req ms) b)

  -- The frozen text whose fingerprint and index are those given.
  abbrev pub Matches : Option FrozenSynthetic → ℕ → ℕ → Type 0
  Matches none fp idx = ⊥
  Matches (some f) fp idx = (f.boundary_fp ≡ fp) × (f.boundary_idx ≡ idx)

  frozen_match-yes :
      (f : FrozenSynthetic) (fp idx : ℕ)
      → (f.boundary_fp == fp && f.boundary_idx == idx) ≡ true
      → Matches (some f) fp idx × (frozen_match out P (some f) fp idx ≡ some f.text)
  unfolding frozen_match
  frozen_match-yes f fp idx h = ((ground arith, ground arith), ground arith)

  frozen_match-no :
      (f : FrozenSynthetic) (fp idx : ℕ)
      → (f.boundary_fp == fp && f.boundary_idx == idx) ≡ false
      → (¬ Matches (some f) fp idx) × (frozen_match out P (some f) fp idx ≡ none)
  unfolding frozen_match
  frozen_match-no f fp idx h = (λ (a, b). absurd (ground arith), ground arith)

  abbrev pub text_of_frozen : Option FrozenSynthetic → Option Text
  text_of_frozen none = none
  text_of_frozen (some f) = some f.text

  -- The text that an applied rebuild serves before the message at an index, with the sections that it
  -- left out, and whether the text is a frozen one: the frozen text where it matches, else one that
  -- is composed of the messages before the index.
  abbrev pub ServedBy :
      Option FrozenSynthetic → RebuildConfig → List Value → ℕ → Text → ℕ → Bool → Type 0
  ServedBy o config ms idx text elided frozen =
      (Matches o (fingerprint_value (get_or ms idx null)) idx
        × (text_of_frozen o ≡ some text)
        × (elided ≡ 0)
        × (frozen ≡ true))
      ⊎ ((¬ Matches o (fingerprint_value (get_or ms idx null)) idx)
          × (fit out P config.compact_target_bytes (gather (take idx ms)) config.sections
              ≡ (text, elided))
          × (frozen ≡ false))

  synthesize-ServedBy :
      (o : Option FrozenSynthetic) (config : RebuildConfig) (ms : List Value) (idx : ℕ)
      → (s : Synthesis)
      → synthesize out P config
          (frozen_match out P o (fingerprint_value (get_or ms idx null)) idx)
          (take idx ms)
        ≡ s
      → ServedBy o config ms idx s.text s.elided s.frozen
  unfolding synthesize frozen_match
  synthesize-ServedBy none config ms idx s e =
      subst (λ (s : Synthesis). ServedBy none config ms idx s.text s.elided s.frozen) e
        (inr (λ m. m, refl, refl))
  synthesize-ServedBy (some f) config ms idx s e =
      let fp = fingerprint_value (get_or ms idx null) in
      elim (Bool-cases (f.boundary_fp == fp && f.boundary_idx == idx)) [
        | inl h ↦
            let m = frozen_match-yes f fp idx h in
            subst (λ (s : Synthesis). ServedBy (some f) config ms idx s.text s.elided s.frozen)
              (sym (ap (λ t. synthesize out P config t (take idx ms)) m.1) ∙ e)
              (inl (m.0, refl, refl, refl))
        | inr h ↦
            let m = frozen_match-no f fp idx h in
            subst (λ (s : Synthesis). ServedBy (some f) config ms idx s.text s.elided s.frozen)
              (sym (ap (λ t. synthesize out P config t (take idx ms)) m.1) ∙ e)
              (inr (m.0, refl, refl))
      ]

  -- An enabled rebuild with turns before the boundary is applied. Before what the repair leaves of the
  -- messages from the boundary on it serves the frozen text, where there is one whose fingerprint and
  -- index are those of the boundary message, or else the text that is fitted to the budget from the
  -- turns before the boundary; the report says which of the two it was, and how many sections were
  -- left out.
  pub frozen_or_fitted :
      (req : Value) (config : RebuildConfig) (ms : List Value) (i : ℕ)
      → config.enabled ≡ true
      → get_array "messages" req ≡ some ms
      → find_cycle_boundary_idx ms ≡ some (suc i)
      → (text : Text) × (r : RebuildReport) × (get_array "messages"
            (apply_rebuild out P req config).0
          ≡ some (synthetic_message text ∷ (repair_orphaned_tool_results (drop (suc i) ms)).0))
        × ((apply_rebuild out P req config).1 ≡ applied r)
        × ServedBy config.frozen_synthetic config ms (suc i) text r.sections_elided r.served_frozen
  unfolding project synthesis_at
  frozen_or_fitted req config ms i on e b =
      let p = enabled-project req config ms i on e b in
      (
        (synthesis_at out P config ms (suc i)).text,
        _,
        ap (λ x. get_array "messages" x.0) p ∙ project-served out P config req ms (suc i) e,
        ap (λ x. x.1) p,
        synthesize-ServedBy config.frozen_synthetic config ms (suc i)
            (synthesis_at out P config ms (suc i)) refl,
      )
