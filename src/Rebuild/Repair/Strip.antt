-- ===== src/Rebuild/Repair/Strip.antt =====
-- One pass of the strip of src/rebuild.rs over messages: what it does to each, and that what is left is paired.
use ostk_cache.Prelude.{
  ◌-◌, ◌≡◌, ◌≢◌, refl, ap, ◌∙◌, sym, Bool, true, false, ◌&&◌, List, [], ◌∷◌, none, some, String,
  Text, arith, length, retain, all, if◌then◌else◌, Bool-cases, Option-cases, inl, inr, all_mono,
  all-retain,
}
use text.Mathlib.TextEquality.{eq_iff}
use ostk_cache.Json.{Value, get_str, get_array, update_array}
use ostk_cache.Json.Laws.{
  has_str_unique, has_str_of_get, get-update_array_ne, get_array-update_array, map_list,
}
use ostk_cache.Rebuild.Messages.{
  contains, is_user, is_tool_result, is_tool_use, use_ids, collect_tool_use_ids,
}
use ostk_cache.Rebuild.Repair.{
  keep_block, strip_message, strip_orphans, not_emptied, repair_orphaned_tool_results,
}

-- The tool results of a user message answer the ids.
unfoldable pub answers : List Text → Value → Bool
answers valid msg =
    if is_user msg
    then elim (get_array "content" msg) [ none ↦ true | some bs ↦ all (keep_block valid) bs ]
    else true

-- Every user message answers the calls of the message before it; the first may answer the ids.
unfoldable pub paired : List Text → List Value → Bool
paired valid [] = true
paired valid (m ∷ ms) = answers valid m && paired (collect_tool_use_ids m) ms

pub use_not_result : (b : Value) → is_tool_use b ≡ true → is_tool_result b ≡ false
use_not_result b h = elim (Bool-cases (is_tool_result b)) [
  | inl e ↦ absurd (cc (has_str_unique "type" "tool_use" "tool_result" b h e))
  | inr e ↦ e
]

-- A tool call is no tool result, and stays.
keep_use : (valid : List Text) (b : Value) → is_tool_use b ≡ true → keep_block valid b ≡ true
unfolding keep_block
keep_use valid b h = rw (use_not_result b h) refl

use_ids-retain :
    (valid : List Text) (bs : List Value) → use_ids (retain (keep_block valid) bs) ≡ use_ids bs
unfolding use_ids retain
use_ids-retain valid [] = refl
use_ids-retain valid (b ∷ bs) = ground (arith, keep_use valid b, use_ids-retain valid bs)

pub content≢role : ◌≢◌ {A = String} "content" "role"
content≢role = ground (arith, eq_iff "content" "role")

pub is_user-update_array :
    (f : List Value → List Value) (m : Value) → is_user (update_array "content" f m) ≡ is_user m
unfolding is_user
is_user-update_array f m =
    has_str_of_get "role" "user" (update_array "content" f m) m
      (get-update_array_ne "content" "role" f m content≢role)

-- The three outcomes of the strip of a message.
pub strip_other :
    (valid : List Text) (m : Value) → is_user m ≡ false → strip_message valid m ≡ (m, 0)
unfolding strip_message
strip_other valid m h = ground arith

pub strip_plain :
    (valid : List Text) (m : Value) → get_array "content" m ≡ none → strip_message valid m ≡ (m, 0)
unfolding strip_message
strip_plain valid m h = ground arith

pub strip_blocks :
    (valid : List Text) (m : Value) (bs : List Value)
    → is_user m ≡ true
    → get_array "content" m ≡ some bs
    → strip_message valid m ≡ (
      update_array "content" (retain (keep_block valid)) m,
      length bs - length (retain (keep_block valid) bs),
    )
unfolding strip_message
strip_blocks valid m bs h e = ground arith

pub content_stripped :
    (valid : List Text) (m : Value) (bs : List Value)
    → get_array "content" m ≡ some bs
    → get_array "content" (update_array "content" (retain (keep_block valid)) m)
      ≡ some (retain (keep_block valid) bs)
content_stripped valid m bs e =
    get_array-update_array "content" (retain (keep_block valid)) m
    ∙ ap (map_list (retain (keep_block valid))) e

-- What holds of a message stripped: it answers the ids, keeps its role and its tool calls.
pub record Stripped (valid : List Text) (m m' : Value) : Type 0 where
  pub answered : answers valid m' ≡ true
  pub role : is_user m' ≡ is_user m
  pub calls : collect_tool_use_ids m' ≡ collect_tool_use_ids m

pub strip-Stripped : (valid : List Text) (m : Value) → Stripped valid m (strip_message valid m).0
strip-Stripped valid m = elim (Bool-cases (is_user m)) [
  | inr h ↦
      rw (strip_other valid m h)
        (record { answered = unfold answers in ground arith; role = refl; calls = refl })
  | inl h ↦ elim (Option-cases (get_array "content" m)) [
    | inl e ↦
        rw (strip_plain valid m e)
          (record { answered = unfold answers in ground arith; role = refl; calls = refl })
    | inr (bs, e) ↦
        let c = content_stripped valid m bs e in
        let r = is_user-update_array (retain (keep_block valid)) m in
        rw (strip_blocks valid m bs h e) (record {
          answered = unfold answers in ground (arith, all-retain (keep_block valid) bs);
          role = r;
          calls = unfold collect_tool_use_ids in ground (arith, use_ids-retain valid bs);
        })
  ]
]

keep_block_mono :
    (v u : List Text)
    → ((id : Text) → contains v id ≡ true → contains u id ≡ true)
    → (b : Value) → keep_block v b ≡ true
    → keep_block u b ≡ true
unfolding keep_block
keep_block_mono v u sub b h = elim (Option-cases (get_str "tool_use_id" b)) [
  | inl e ↦ ground arith
  | inr (id, e) ↦ ground (arith, sub id)
]

pub answers_mono :
    (v u : List Text)
    → ((id : Text) → contains v id ≡ true → contains u id ≡ true)
    → (m : Value) → answers v m ≡ true
    → answers u m ≡ true
unfolding answers
answers_mono v u sub m h = elim (Option-cases (get_array "content" m)) [
  | inl e ↦ ground arith
  | inr (bs, e) ↦
      ground (arith, all_mono (keep_block v) (keep_block u) bs (keep_block_mono v u sub))
]

emptied-calls : (m : Value) → not_emptied m ≡ false → collect_tool_use_ids m ≡ []
unfolding not_emptied collect_tool_use_ids
emptied-calls m h = ground arith

-- A user message that goes away called no tool.
strip_emptied-calls :
    (valid : List Text) (m : Value)
    → not_emptied (strip_message valid m).0 ≡ false
    → collect_tool_use_ids m ≡ []
strip_emptied-calls valid m h =
    sym (strip-Stripped valid m).calls ∙ emptied-calls (strip_message valid m).0 h

pub nothing_contained :
    (ids u : List Text) (id : Text) → ids ≡ [] → contains ids id ≡ true → contains u id ≡ true
unfolding contains
nothing_contained [] u id e h = cc
nothing_contained (x ∷ ids) u id e h = cc

strip_orphans-paired :
    (v u : List Text) (ms : List Value)
    → ((id : Text) → contains v id ≡ true → contains u id ≡ true)
    → paired u (retain not_emptied (strip_orphans v ms).0) ≡ true
unfolding strip_orphans retain paired
strip_orphans-paired v u [] sub = refl
strip_orphans-paired v u (m ∷ ms) sub = elim (Bool-cases (not_emptied (strip_message v m).0)) [
  | inl kept ↦
      let s = strip-Stripped v m in
      rw (kept, s.calls)
        (ground (
          arith,
          answers_mono v u sub (strip_message v m).0 s.answered,
          strip_orphans-paired (collect_tool_use_ids m) (collect_tool_use_ids m) ms (λ id h. h),
        ))
  | inr gone ↦ rw gone (
      strip_orphans-paired (collect_tool_use_ids m) u ms
        (λ id. nothing_contained (collect_tool_use_ids m) u id (strip_emptied-calls v m gone)))
]

pub repair-paired : (ms : List Value) → paired [] (repair_orphaned_tool_results ms).0 ≡ true
unfolding repair_orphaned_tool_results
repair-paired ms = strip_orphans-paired [] [] ms (λ id h. h)
