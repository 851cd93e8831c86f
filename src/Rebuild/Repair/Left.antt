-- ===== src/Rebuild/Repair/Left.antt =====
-- What the repair of src/rebuild.rs leaves of each message.
use ostk_cache.Prelude.{
  subst, ◌≡◌, ◌≢◌, refl, sym, ap, ◌∙◌, true, false, List, [], ◌∷◌, none, some, String, Text, arith,
  retain, ◌⊎◌, Bool-cases, Option-cases, inl, inr, if◌then◌else◌,
}
use ostk_cache.Json.{Value, get, get_array, update_array}
use ostk_cache.Json.Laws.{get-update_array_ne}
use ostk_cache.Rebuild.Messages.{is_user, collect_tool_use_ids}
use ostk_cache.Rebuild.Repair.{
  keep_block, strip_message, strip_orphans, not_emptied, repair_orphaned_tool_results,
}
use ostk_cache.Rebuild.Repair.Paired.{Answers, keep_block-Answers, Answers-keep_block}
use ostk_cache.Rebuild.Repair.Strip.{
  strip_other, strip_plain, strip_blocks, content_stripped, is_user-update_array,
}

-- A message that is not a user's, or has no blocks.
abbrev pub NoBlocks : Value → Type 0
NoBlocks m = (is_user m ≡ false) ⊎ (get_array "content" m ≡ none)

-- What is left of blocks, in order: those that are no tool result or answer one of the ids.
pub data AnswersLeft (ids : List Text) : List Value → List Value → Type 0 where
  no_more : AnswersLeft ids [] []
  stays :
      {b : Value} {bs left : List Value}
      → Answers ids b
      → AnswersLeft ids bs left
      → AnswersLeft ids (b ∷ bs) (b ∷ left)
  goes :
      {b : Value} {bs left : List Value}
      → ¬ Answers ids b
      → AnswersLeft ids bs left
      → AnswersLeft ids (b ∷ bs) left

-- A user's message with blocks, and what is left of these.
pub record BlocksLeft (ids : List Text) (m : Value) (left : List Value) : Type 0 where
  pub user : is_user m ≡ true
  pub blocks : List Value
  pub had : get_array "content" m ≡ some blocks
  pub kept : AnswersLeft ids blocks left

-- What is left of messages, where the first may answer the ids and each other one the tool calls of
-- the message before it: a message without blocks stays as it is, a user's message keeps every key
-- but its content and the blocks that may stay, and goes where none of its blocks may.
pub data Left : List Text → List Value → List Value → Type 0 where
  end : {ids : List Text} → Left ids [] []
  whole :
      {ids : List Text} {m : Value} {ms rest : List Value}
      → NoBlocks m
      → Left (collect_tool_use_ids m) ms rest
      → Left ids (m ∷ ms) (m ∷ rest)
  part :
      {ids : List Text} {m m' b : Value} {bs ms rest : List Value}
      → BlocksLeft ids m (b ∷ bs)
      → get_array "content" m' ≡ some (b ∷ bs)
      → ((k : String) → "content" ≢ k → get k m' ≡ get k m)
      → Left (collect_tool_use_ids m) ms rest
      → Left ids (m ∷ ms) (m' ∷ rest)
  gone :
      {ids : List Text} {m : Value} {ms rest : List Value}
      → BlocksLeft ids m []
      → Left (collect_tool_use_ids m) ms rest
      → Left ids (m ∷ ms) rest

retain-AnswersLeft :
    (ids : List Text) (bs : List Value) → AnswersLeft ids bs (retain (keep_block ids) bs)
unfolding retain
retain-AnswersLeft ids [] = no_more
retain-AnswersLeft ids (b ∷ bs) = elim (Bool-cases (keep_block ids b)) [
  | inl h ↦ rw h (stays (keep_block-Answers ids b h) (retain-AnswersLeft ids bs))
  | inr h ↦
      rw h (goes (λ a. absurd (cc (Answers-keep_block ids b a, h))) (retain-AnswersLeft ids bs))
]

not_emptied-NoBlocks : (m : Value) → NoBlocks m → not_emptied m ≡ true
unfolding not_emptied
not_emptied-NoBlocks m (inl h) = ground arith
not_emptied-NoBlocks m (inr h) = elim (Bool-cases (is_user m)) [
  | inl u ↦ ground arith
  | inr u ↦ ground arith
]

not_emptied-some :
    (m b : Value) (bs : List Value) → get_array "content" m ≡ some (b ∷ bs) → not_emptied m ≡ true
unfolding not_emptied
not_emptied-some m b bs h = elim (Bool-cases (is_user m)) [
  | inl u ↦ ground arith
  | inr u ↦ ground arith
]

not_emptied-nil :
    (m : Value) → is_user m ≡ true → get_array "content" m ≡ some [] → not_emptied m ≡ false
unfolding not_emptied
not_emptied-nil m u h = ground arith

strip-whole : (ids : List Text) (m : Value) → NoBlocks m → strip_message ids m ≡ (m, 0)
strip-whole ids m (inl h) = strip_other ids m h
strip-whole ids m (inr h) = strip_plain ids m h

blocks_left :
    (ids : List Text) (m : Value) (ms rest bs left : List Value)
    → is_user m ≡ true
    → get_array "content" m ≡ some bs
    → left ≡ retain (keep_block ids) bs
    → Left (collect_tool_use_ids m) ms rest
    → Left ids (m ∷ ms) (
        if not_emptied (update_array "content" (retain (keep_block ids)) m)
        then update_array "content" (retain (keep_block ids)) m ∷ rest
        else rest)
blocks_left ids m ms rest bs [] h e k l =
    let c = content_stripped ids m bs e ∙ ap some (sym k) in
    let u = is_user-update_array (retain (keep_block ids)) m ∙ h in
    rw (not_emptied-nil (update_array "content" (retain (keep_block ids)) m) u c) (
      gone
        (record {
          user = h;
          blocks = bs;
          had = e;
          kept = subst (AnswersLeft ids bs) (sym k) (retain-AnswersLeft ids bs);
        })
        l)
blocks_left ids m ms rest bs (b ∷ left) h e k l =
    let c = content_stripped ids m bs e ∙ ap some (sym k) in
    rw (not_emptied-some (update_array "content" (retain (keep_block ids)) m) b left c) (
      part
        (record {
          user = h;
          blocks = bs;
          had = e;
          kept = subst (AnswersLeft ids bs) (sym k) (retain-AnswersLeft ids bs);
        })
        c (λ key n. get-update_array_ne "content" key (retain (keep_block ids)) m n) l)

strip_orphans-Left :
    (ids : List Text) (ms : List Value) → Left ids ms (retain not_emptied (strip_orphans ids ms).0)
unfolding strip_orphans retain
strip_orphans-Left ids [] = end
strip_orphans-Left ids (m ∷ ms) =
    let rest = retain not_emptied (strip_orphans (collect_tool_use_ids m) ms).0 in
    let l = strip_orphans-Left (collect_tool_use_ids m) ms in
    elim (Bool-cases (is_user m)) [
      | inr h ↦ rw (strip-whole ids m (inl h), not_emptied-NoBlocks m (inl h)) (whole (inl h) l)
      | inl h ↦ elim (Option-cases (get_array "content" m)) [
        | inl e ↦ rw (strip-whole ids m (inr e), not_emptied-NoBlocks m (inr e)) (whole (inr e) l)
        | inr (bs, e) ↦
            rw (strip_blocks ids m bs h e)
              (blocks_left ids m ms rest bs (retain (keep_block ids) bs) h e refl l)
      ]
    ]

-- The repair goes message by message: a message that is not a user's or has no blocks stays whole; of
-- a user's message with blocks those stay, in order, that are no tool result or answer a tool call of
-- the message before it as that came in, and every other key stays; where none is left, the message
-- goes.
pub repair-Left : (ms : List Value) → Left [] ms (repair_orphaned_tool_results ms).0
unfolding repair_orphaned_tool_results
repair-Left ms = strip_orphans-Left [] ms
