-- ===== src/Rebuild/Apply/Rebuilt.antt =====
-- What `apply_rebuild` of src/rebuild.rs makes of a request.
use ostk_cache.Prelude.{
  ℕ, zero, suc, ◌≡◌, ◌≢◌, inl, inr, refl, sym, ap, ◌∙◌, subst, Bool, true, false, ◌&&◌, List, [],
  ◌∷◌, Option, none, some, String, Text, eqb, arith, retain, length, drop, Bool-cases,
}
use ostk_cache.Json.{Value, get, get_array, has_str, update_array}
use ostk_cache.Json.Laws.{get_array-update_array, get-update_array_ne, map_list}
use ostk_cache.Size.{Printer}
use ostk_cache.ReminderStrip.{rposition}
use ostk_cache.ReminderStrip.Turns.{IsLast, rposition-some}
use ostk_cache.Rebuild.Messages.{
  is_user, is_real_user_message, last_index, find_cycle_boundary_idx, collect_tool_use_ids, use_ids,
}
use ostk_cache.Rebuild.Repair.{
  repair_orphaned_tool_results, strip_orphans, strip_message, keep_block, not_emptied,
}
use ostk_cache.Rebuild.Repair.Paired.{Paired, repair-Paired}
use ostk_cache.Rebuild.Repair.Left.{Left, repair-Left}
use ostk_cache.Rebuild.Apply.{
  RebuildConfig, RebuildReport, RebuildOutcome, disabled, skipped, applied, Projection,
  synthetic_message, synthesis_at, project, rebuild_at, rebuild_messages, apply_rebuild,
}

-- The repair keeps a synthesized message at the head.
repair-synthetic :
    (text : Text) (ms : List Value)
    → (repair_orphaned_tool_results (synthetic_message text ∷ ms)).0
      ≡ synthetic_message text ∷ (repair_orphaned_tool_results ms).0
unfolding repair_orphaned_tool_results strip_orphans strip_message keep_block not_emptied is_user
    has_str eqb synthetic_message retain collect_tool_use_ids use_ids get_array update_array
repair-synthetic text ms = refl

last_index-rposition : (p : Value → Bool) (ms : List Value) → last_index p ms ≡ rposition p ms
unfolding last_index rposition
last_index-rposition p [] = refl
last_index-rposition p (m ∷ ms) = ground (arith, last_index-rposition p ms)

abbrev pub is_real : Value → Bool
is_real m = is_user m && is_real_user_message m

boundary-IsLast :
    (ms : List Value) (i : ℕ) → find_cycle_boundary_idx ms ≡ some i → IsLast is_real ms i
unfolding find_cycle_boundary_idx
boundary-IsLast ms i e = rposition-some is_real ms i (sym (last_index-rposition is_real ms) ∙ e)

module _ (out : Printer) (P : Projection) (config : RebuildConfig) where
  -- A request that a rebuild was applied to: its messages are a synthesized one and, message by
  -- message, what the repair leaves of those from the last real message of a user on.
  pub record Rebuilt (before after : Value) (r : RebuildReport) : Type 0 where
    pub messages : List Value
    pub text : Text
    pub rest : List Value
    pub had : get_array "messages" before ≡ some messages
    pub boundary : IsLast is_real messages r.boundary_idx
    pub synthesis : text ≡ (synthesis_at out P config messages r.boundary_idx).text
    pub has : get_array "messages" after ≡ some (synthetic_message text ∷ rest)
    pub left : Left [] (drop r.boundary_idx messages) rest
    pub pairs : Paired [] (synthetic_message text ∷ rest)
    pub others : (k : String) → "messages" ≢ k → get k after ≡ get k before
    pub size : r.bytes_out ≡ length text
    pub dropped : r.turns_dropped ≡ r.boundary_idx

  -- What each outcome promises: an untouched request, or a rebuilt one.
  abbrev pub After : Value → Value → RebuildOutcome → Type 0
  After before after disabled = after ≡ before
  After before after (skipped reason) = after ≡ before
  After before after (applied r) = Rebuilt before after r

module _ (out : Printer) (P : Projection) where
  pub project-served :
      (config : RebuildConfig) (req : Value) (ms : List Value) (idx : ℕ)
      → get_array "messages" req ≡ some ms
      → get_array "messages" (project out P config req ms idx).0
        ≡ some (
            synthetic_message (synthesis_at out P config ms idx).text
            ∷ (repair_orphaned_tool_results (drop idx ms)).0)
  unfolding project
  project-served config req ms idx e =
      let chain = synthetic_message (synthesis_at out P config ms idx).text ∷ drop idx ms in
      get_array-update_array "messages" (λ _. (repair_orphaned_tool_results chain).0) req
      ∙ ap (map_list (λ _. (repair_orphaned_tool_results chain).0)) e
      ∙ ap some (repair-synthetic (synthesis_at out P config ms idx).text (drop idx ms))

  project-After :
      (config : RebuildConfig) (req : Value) (ms : List Value) (idx : ℕ)
      → get_array "messages" req ≡ some ms
      → find_cycle_boundary_idx ms ≡ some idx
      → After out P config req
          (project out P config req ms idx).0
          (project out P config req ms idx).1
  unfolding project
  project-After config req ms idx e b =
      let text = (synthesis_at out P config ms idx).text in
      let chain = synthetic_message text ∷ drop idx ms in
      record {
        messages = ms;
        text = text;
        rest = (repair_orphaned_tool_results (drop idx ms)).0;
        had = e;
        boundary = boundary-IsLast ms idx b;
        synthesis = refl;
        has = project-served config req ms idx e;
        left = repair-Left (drop idx ms);
        pairs = subst (Paired []) (repair-synthetic text (drop idx ms)) (repair-Paired chain);
        others = λ k h. get-update_array_ne "messages" k _ req h;
        size = refl;
        dropped = refl;
      }

  rebuild_at-After :
      (config : RebuildConfig) (req : Value) (ms : List Value) (o : Option ℕ)
      → get_array "messages" req ≡ some ms
      → find_cycle_boundary_idx ms ≡ o
      → After out P config req
          (rebuild_at out P config req ms o).0
          (rebuild_at out P config req ms o).1
  unfolding rebuild_at
  rebuild_at-After config req ms none e b = refl
  rebuild_at-After config req ms (some zero) e b = refl
  rebuild_at-After config req ms (some (suc i)) e b = project-After config req ms (suc i) e b

  rebuild_messages-After :
      (config : RebuildConfig) (req : Value) (o : Option (List Value))
      → get_array "messages" req ≡ o
      → After out P config req
          (rebuild_messages out P config req o).0
          (rebuild_messages out P config req o).1
  unfolding rebuild_messages
  rebuild_messages-After config req none e = refl
  rebuild_messages-After config req (some ms) e =
      rebuild_at-After config req ms (find_cycle_boundary_idx ms) e refl

  pub apply-enabled :
      (req : Value) (config : RebuildConfig)
      → config.enabled ≡ true
      → apply_rebuild out P req config
        ≡ rebuild_messages out P config req (get_array "messages" req)
  unfolding apply_rebuild
  apply-enabled req config on = ground arith

  apply-disabled :
      (req : Value) (config : RebuildConfig)
      → config.enabled ≡ false
      → apply_rebuild out P req config ≡ (req, disabled)
  unfolding apply_rebuild
  apply-disabled req config off = ground arith

  -- A rebuild that is disabled or skipped leaves the request as it is. One that is applied leaves every
  -- key but the messages as it is, and of these it leaves a synthesized message, whose text is that of
  -- the synthesis at the boundary, and then, message by message, what the repair leaves of those from
  -- the boundary on, which is the last real message of a user: a message that is not a user's or has
  -- no blocks whole, a user's message with the keys that it had and the blocks that are no tool result
  -- or answer the message before it, and no user's message none of whose blocks is left. Every tool
  -- result answers the message before it, and the report has the boundary, the turns dropped and the
  -- size of the text.
  pub apply-After :
      (req : Value) (config : RebuildConfig)
      → After out P config req (apply_rebuild out P req config).0 (apply_rebuild out P req config).1
  apply-After req config = elim (Bool-cases config.enabled) [
    | inl e ↦
        subst (λ x. After out P config req x.0 x.1) (sym (apply-enabled req config e))
          (rebuild_messages-After config req (get_array "messages" req) refl)
    | inr e ↦ subst (λ x. After out P config req x.0 x.1) (sym (apply-disabled req config e)) refl
  ]
