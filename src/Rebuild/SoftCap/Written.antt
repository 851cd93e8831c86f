-- ===== src/Rebuild/SoftCap/Written.antt =====
-- Writing a tool result's content, as Tier A of src/rebuild.rs does, keeps what it answers.
use ostk_cache.Prelude.{
  ℕ, zero, suc, ◌≡◌, ◌≢◌, refl, ◌&&◌, List, [], ◌∷◌, String, Text, arith, Option-cases, inl, inr,
  all, modify_at,
}
use text.Mathlib.TextEquality.{eq_iff}
use ostk_cache.Json.{Value, get_array, has_str, update_array, put}
use ostk_cache.Json.Laws.{
  get-put_ne, get_str_of_get, has_str_of_get, get-update_array_ne, get_array-update_array, map_list,
}
use ostk_cache.Rebuild.Messages.{is_user, use_ids, collect_tool_use_ids}
use ostk_cache.Rebuild.Repair.{keep_block}
use ostk_cache.Rebuild.Repair.Strip.{content≢role, answers, paired}

content≢type : ◌≢◌ {A = String} "content" "type"
content≢type = ground (arith, eq_iff "content" "type")

content≢id : ◌≢◌ {A = String} "content" "id"
content≢id = ground (arith, eq_iff "content" "id")

content≢tool_use_id : ◌≢◌ {A = String} "content" "tool_use_id"
content≢tool_use_id = ground (arith, eq_iff "content" "tool_use_id")

pub tools≢messages : ◌≢◌ {A = String} "tools" "messages"
tools≢messages = ground (arith, eq_iff "tools" "messages")

-- A block given new content is of the same type, and has the same ids.
type-put : (s : String) (w b : Value) → has_str "type" s (put "content" w b) ≡ has_str "type" s b
type-put s w b =
    has_str_of_get "type" s (put "content" w b) b (get-put_ne "content" "type" w b content≢type)

keep_block-put :
    (ids : List Text) (w b : Value) → keep_block ids (put "content" w b) ≡ keep_block ids b
unfolding keep_block
keep_block-put ids w b = ground (
  arith,
  type-put "tool_result" w b,
  get_str_of_get "tool_use_id" (put "content" w b) b
      (get-put_ne "content" "tool_use_id" w b content≢tool_use_id),
)

use_ids-modify_at :
    (w : Value) (i : ℕ) (bs : List Value) → use_ids (modify_at i (put "content" w) bs) ≡ use_ids bs
unfolding use_ids modify_at
use_ids-modify_at w i [] = refl
use_ids-modify_at w zero (b ∷ bs) = ground (
  arith,
  type-put "tool_use" w b,
  get_str_of_get "id" (put "content" w b) b (get-put_ne "content" "id" w b content≢id),
)
use_ids-modify_at w (suc i) (b ∷ bs) = ground (arith, use_ids-modify_at w i bs)

all-modify_at :
    (ids : List Text) (w : Value) (i : ℕ) (bs : List Value)
    → all (keep_block ids) (modify_at i (put "content" w) bs) ≡ all (keep_block ids) bs
unfolding all modify_at
all-modify_at ids w i [] = refl
all-modify_at ids w zero (b ∷ bs) = ground (arith, keep_block-put ids w b)
all-modify_at ids w (suc i) (b ∷ bs) = ground (arith, all-modify_at ids w i bs)

-- Writing a block's content in a message, as Tier A does.
abbrev pub write_block : ℕ → Value → Value → Value
write_block i w m = update_array "content" (modify_at i (put "content" w)) m

content_written :
    (i : ℕ) (w m : Value)
    → get_array "content" (write_block i w m)
      ≡ map_list (modify_at i (put "content" w)) (get_array "content" m)
content_written i w m = get_array-update_array "content" (modify_at i (put "content" w)) m

role_written : (i : ℕ) (w m : Value) → is_user (write_block i w m) ≡ is_user m
unfolding is_user
role_written i w m =
    has_str_of_get "role" "user" (write_block i w m) m
      (get-update_array_ne "content" "role" (modify_at i (put "content" w)) m content≢role)

calls_written :
    (i : ℕ) (w m : Value) → collect_tool_use_ids (write_block i w m) ≡ collect_tool_use_ids m
unfolding collect_tool_use_ids
calls_written i w m = elim (Option-cases (get_array "content" m)) [
  | inl e ↦ ground (arith, content_written i w m)
  | inr (bs, e) ↦ ground (arith, content_written i w m, use_ids-modify_at w i bs)
]

answers_written :
    (ids : List Text) (i : ℕ) (w m : Value) → answers ids (write_block i w m) ≡ answers ids m
unfolding answers
answers_written ids i w m = elim (Option-cases (get_array "content" m)) [
  | inl e ↦ ground (arith, content_written i w m, role_written i w m)
  | inr (bs, e) ↦
      ground (arith, content_written i w m, role_written i w m, all-modify_at ids w i bs)
]

pub paired_written :
    (ids : List Text) (j i : ℕ) (w : Value) (ms : List Value)
    → paired ids (modify_at j (write_block i w) ms) ≡ paired ids ms
unfolding paired modify_at
paired_written ids j i w [] = refl
paired_written ids zero i w (m ∷ ms) =
    λ k. answers_written ids i w m k && paired (calls_written i w m k) ms
paired_written ids (suc j) i w (m ∷ ms) =
    λ k. answers ids m && paired_written (collect_tool_use_ids m) j i w ms k
