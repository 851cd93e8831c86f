-- ===== src/Rebuild/Apply.antt =====
-- `apply_rebuild` of src/rebuild.rs: the turns before the cycle boundary give way to one synthesized
-- message. What gathers and composes the text of that message is the interface Projection.
pub mod Elide
pub mod Rebuilt
pub mod Served
mod Tests
use ostk_cache.Prelude.{
  ℕ, zero, suc, ◌+◌, ◌-◌, Bool, true, false, ◌&&◌, List, [], ◌∷◌, Option, none, some, Text, codes,
  leb, ◌==◌, if◌then◌else◌, length, get_or, take, drop,
}
use ostk_cache.Json.{
  Value, null, str, array, object, nil, cons, end, entry, from_list, get_array, update_array,
  text_block,
}
use ostk_cache.Size.{Printer, json_size}
use ostk_cache.Rebuild.Messages.{find_cycle_boundary_idx}
use ostk_cache.Rebuild.Repair.{repair_orphaned_tool_results}

pub record FrozenSynthetic : Type 0 where
  pub text : Text
  pub boundary_fp : ℕ
  pub boundary_idx : ℕ

-- The sections that may be left out.
pub record Sections : Type 0 where
  pub templates : Option Text
  pub tail : Option Text
  pub digests : Option Text

-- The part of RebuildConfig that this function reads itself; the rest is within Projection.
pub record RebuildConfig : Type 0 where
  pub enabled : Bool
  pub frozen_synthetic : Option FrozenSynthetic
  pub compact_target_bytes : Option ℕ
  pub sections : Sections

pub record RebuildReport : Type 0 where
  pub turns_dropped : ℕ
  pub bytes_in : ℕ
  pub bytes_out : ℕ
  pub envelope_found : Bool
  pub native_tool_calls_summarized : ℕ
  pub user_messages_summarized : ℕ
  pub sections_elided : ℕ
  pub served_frozen : Bool
  pub boundary_fp : ℕ
  pub boundary_idx : ℕ

pub data RebuildOutcome : Type 0 where
  disabled : RebuildOutcome
  skipped : Text → RebuildOutcome
  applied : RebuildReport → RebuildOutcome

-- What is gathered from the dropped turns, the text composed of it with the sections that are left
-- in, what the report says of it, and the fingerprint of a message.
pub record Projection : Type 1 where
  pub Core : Type 0
  pub gather : List Value → Core
  pub compose : Core → Sections → Text
  pub envelope_is_some : Core → Bool
  pub native_len : Core → ℕ
  pub user_len : Core → ℕ
  pub fingerprint_value : Value → ℕ

-- Templates go first, then the tail, then the digests.
unfoldable pub elide_one : Sections → Option Sections
elide_one s = elim s.templates [
  | some t ↦ some (record s { templates = none })
  | none ↦ elim s.tail [
    | some t ↦ some (record s { tail = none })
    | none ↦ elim s.digests [ some t ↦ some (record s { digests = none }) | none ↦ none ]
  ]
]

unfoldable pub synthetic_message : Text → Value
synthetic_message text =
    object
      (entry "content" (array (cons (text_block text) nil)) (entry "role" (str (codes "user")) end))

-- The synthesized text, and what the report says of it.
pub record Synthesis : Type 0 where
  pub text : Text
  pub elided : ℕ
  pub envelope : Bool
  pub native : ℕ
  pub user : ℕ
  pub frozen : Bool

module _ (out : Printer) (P : Projection) where
  open P use {Core, gather, compose, envelope_is_some, native_len, user_len, fingerprint_value}

  -- The loop takes out a section a round, of three: four rounds are enough.
  unfoldable pub elide : ℕ → ℕ → Core → Sections → ℕ → Text × ℕ
  unfolding elide_one
  elide zero budget core s n = (compose core s, n)
  elide (suc fuel) budget core s n =
      if leb (length (compose core s)) budget then (compose core s, n) else elim (elide_one s) [
        | none ↦ (compose core s, n)
        | some s' ↦ elide fuel budget core s' (n + 1)
      ]

  unfoldable pub fit : Option ℕ → Core → Sections → Text × ℕ
  unfolding elide
  fit none core s = (compose core s, 0)
  fit (some budget) core s = elide 4 budget core s 0

  unfoldable pub frozen_match : Option FrozenSynthetic → ℕ → ℕ → Option Text
  frozen_match none fp idx = none
  frozen_match (some f) fp idx =
      if f.boundary_fp == fp && f.boundary_idx == idx then some f.text else none

  unfoldable pub synthesize : RebuildConfig → Option Text → List Value → Synthesis
  unfolding fit
  synthesize config (some frozen) dropped = record {
    text = frozen;
    elided = 0;
    envelope = false;
    native = 0;
    user = 0;
    frozen = true;
  }
  synthesize config none dropped =
      let core = gather dropped in
      let (text, elided) = fit config.compact_target_bytes core config.sections in
      record {
        text = text;
        elided = elided;
        envelope = envelope_is_some core;
        native = native_len core;
        user = user_len core;
        frozen = false;
      }

  -- The boundary's index is within the messages.
  abbrev fp_at : List Value → ℕ → ℕ
  fp_at messages idx = fingerprint_value (get_or messages idx null)

  unfoldable pub synthesis_at : RebuildConfig → List Value → ℕ → Synthesis
  unfolding synthesize frozen_match
  synthesis_at config messages idx =
      synthesize config (frozen_match config.frozen_synthetic (fp_at messages idx) idx)
        (take idx messages)

  unfoldable pub project : RebuildConfig → Value → List Value → ℕ → Value × RebuildOutcome
  unfolding synthesis_at synthetic_message
  project config req messages idx =
      let s = synthesis_at config messages idx in
      (
        update_array "messages"
            (λ _. (repair_orphaned_tool_results (synthetic_message s.text ∷ drop idx messages)).0)
            req,
        applied (record {
          turns_dropped = idx;
          bytes_in = json_size out (array (from_list (take idx messages)));
          bytes_out = length s.text;
          envelope_found = s.envelope;
          native_tool_calls_summarized = s.native;
          user_messages_summarized = s.user;
          sections_elided = s.elided;
          served_frozen = s.frozen;
          boundary_fp = fp_at messages idx;
          boundary_idx = idx;
        }),
      )

  unfoldable pub rebuild_at : RebuildConfig → Value → List Value → Option ℕ → Value × RebuildOutcome
  unfolding project
  rebuild_at config req messages none = (req, skipped (codes "no real user message"))
  rebuild_at config req messages (some zero) = (req, skipped (codes "no prior history"))
  rebuild_at config req messages (some (suc i)) = project config req messages (suc i)

  unfoldable pub rebuild_messages :
      RebuildConfig → Value → Option (List Value) → Value × RebuildOutcome
  unfolding rebuild_at
  rebuild_messages config req none = (req, skipped (codes "messages not array"))
  rebuild_messages config req (some messages) =
      rebuild_at config req messages (find_cycle_boundary_idx messages)

  unfoldable pub apply_rebuild : Value → RebuildConfig → Value × RebuildOutcome
  unfolding rebuild_messages
  apply_rebuild req config =
      if config.enabled
      then rebuild_messages config req (get_array "messages" req)
      else (req, disabled)
