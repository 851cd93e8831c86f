-- ===== src/Rebuild/Repair/Paired.antt =====
-- What the repair pass of src/rebuild.rs leaves: every tool result answers a call of the message before it.
use ostk_cache.Prelude.{
  ◌+◌, ◌-◌, ◌≡◌, refl, ap, ◌∙◌, true, false, List, [], ◌∷◌, none, some, Text, arith, length, retain,
  all, All, Bool-cases, Option-cases, inl, inr, retain-eq_of_all, all-retain,
}
use ostk_cache.Json.{Value, get_str, get_array}
use ostk_cache.Json.Laws.{update_array_same}
use ostk_cache.Rebuild.Messages.{contains, is_user, is_tool_result, collect_tool_use_ids}
use ostk_cache.Rebuild.Repair.{
  keep_block, strip_message, strip_orphans, not_emptied, repair_orphaned_tool_results,
}
use ostk_cache.Rebuild.Repair.Strip.{
  answers, paired, strip_other, strip_plain, strip_blocks, repair-paired,
}

-- A block is no tool result, or answers one of the ids.
pub data Answers (ids : List Text) (b : Value) : Type 0 where
  other : is_tool_result b ≡ false → Answers ids b
  answer : (id : Text) → get_str "tool_use_id" b ≡ some id → contains ids id ≡ true → Answers ids b

-- Of a user message, the blocks; every block of it answers the ids.
pub data MessageAnswers (ids : List Text) (m : Value) : Type 0 where
  no_user : is_user m ≡ false → MessageAnswers ids m
  no_blocks : get_array "content" m ≡ none → MessageAnswers ids m
  blocks :
      (bs : List Value)
      → get_array "content" m ≡ some bs
      → All (Answers ids) bs
      → MessageAnswers ids m

-- Every message answers the calls of the one before it, and the first message the ids.
abbrev pub Paired : List Text → List Value → Type 0
Paired ids [] = Unit
Paired ids (m ∷ ms) = MessageAnswers ids m × Paired (collect_tool_use_ids m) ms

pub keep_block-Answers : (ids : List Text) (b : Value) → keep_block ids b ≡ true → Answers ids b
unfolding keep_block
keep_block-Answers ids b h = elim (Bool-cases (is_tool_result b)) [
  | inr o ↦ other o
  | inl r ↦ elim (Option-cases (get_str "tool_use_id" b)) [
    | inl e ↦ absurd (ground arith)
    | inr (id, e) ↦ answer id e (ground arith)
  ]
]

all-Answers :
    (ids : List Text) (bs : List Value) → all (keep_block ids) bs ≡ true → All (Answers ids) bs
unfolding all
all-Answers ids [] h = tt
all-Answers ids (b ∷ bs) h =
    (keep_block-Answers ids b (ground arith), all-Answers ids bs (ground arith))

answers-MessageAnswers : (ids : List Text) (m : Value) → answers ids m ≡ true → MessageAnswers ids m
unfolding answers
answers-MessageAnswers ids m h = elim (Bool-cases (is_user m)) [
  | inr o ↦ no_user o
  | inl u ↦ elim (Option-cases (get_array "content" m)) [
    | inl e ↦ no_blocks e
    | inr (bs, e) ↦ blocks bs e (all-Answers ids bs (ground arith))
  ]
]

pub paired-Paired : (ids : List Text) (ms : List Value) → paired ids ms ≡ true → Paired ids ms
unfolding paired
paired-Paired ids [] h = tt
paired-Paired ids (m ∷ ms) h = (
  answers-MessageAnswers ids m (ground arith),
  paired-Paired (collect_tool_use_ids m) ms (ground arith),
)

-- After the repair every tool result of a user message answers a tool call of the message right
-- before it, and the first message has none.
pub repair-Paired : (ms : List Value) → Paired [] (repair_orphaned_tool_results ms).0
repair-Paired ms = paired-Paired [] (repair_orphaned_tool_results ms).0 (repair-paired ms)

strip_answered :
    (valid : List Text) (m : Value) → answers valid m ≡ true → strip_message valid m ≡ (m, 0)
unfolding answers
strip_answered valid m h = elim (Bool-cases (is_user m)) [
  | inr o ↦ strip_other valid m o
  | inl u ↦ elim (Option-cases (get_array "content" m)) [
    | inl e ↦ strip_plain valid m e
    | inr (bs, e) ↦
        let same : retain (keep_block valid) bs ≡ bs =
          retain-eq_of_all (keep_block valid) bs (ground arith) in
        let count : length bs - length (retain (keep_block valid) bs) ≡ 0 =
          omega (arith, ap (length {0}) same) in
        strip_blocks valid m bs u e ∙ λ i.
        (update_array_same "content" (retain (keep_block valid)) m bs e same i, count i)
  ]
]

strip_orphans_answered :
    (valid : List Text) (ms : List Value)
    → paired valid ms ≡ true
    → strip_orphans valid ms ≡ (ms, 0)
unfolding strip_orphans paired
strip_orphans_answered valid [] h = refl
strip_orphans_answered valid (m ∷ ms) h =
    let here = strip_answered valid m (ground arith) in
    let later = strip_orphans_answered (collect_tool_use_ids m) ms (ground arith) in
    λ i. ((here i).0 ∷ (later i).0, (here i).1 + (later i).1)

-- A list whose tool results are all answered, with no emptied user message, is left alone, and
-- nothing is counted.
pub repair_fixed :
    (ms : List Value)
    → paired [] ms ≡ true
    → all not_emptied ms ≡ true
    → repair_orphaned_tool_results ms ≡ (ms, 0)
unfolding repair_orphaned_tool_results
repair_fixed ms h n =
    (λ i. let r = strip_orphans_answered [] ms h i in (retain not_emptied r.0, r.1)) ∙ λ i.
    (retain-eq_of_all not_emptied ms n i, 0)

-- A second repair changes nothing and counts nothing.
pub repair_idem :
    (ms : List Value)
    → repair_orphaned_tool_results (repair_orphaned_tool_results ms).0
      ≡ ((repair_orphaned_tool_results ms).0, 0)
repair_idem ms =
    repair_fixed (repair_orphaned_tool_results ms).0 (repair-paired ms)
      (unfold repair_orphaned_tool_results in all-retain not_emptied (strip_orphans [] ms).0)

pub Answers-keep_block : (ids : List Text) (b : Value) → Answers ids b → keep_block ids b ≡ true
unfolding keep_block
Answers-keep_block ids b (other o) = ground arith
Answers-keep_block ids b (answer id e h) = elim (Bool-cases (is_tool_result b)) [
  | inl r ↦ ground arith
  | inr r ↦ ground arith
]

Answers-all :
    (ids : List Text) (bs : List Value) → All (Answers ids) bs → all (keep_block ids) bs ≡ true
unfolding all
Answers-all ids [] h = refl
Answers-all ids (b ∷ bs) h = ground (arith, Answers-keep_block ids b h.0, Answers-all ids bs h.1)

MessageAnswers-answers : (ids : List Text) (m : Value) → MessageAnswers ids m → answers ids m ≡ true
unfolding answers
MessageAnswers-answers ids m (no_user o) = ground arith
MessageAnswers-answers ids m (no_blocks e) = elim (Bool-cases (is_user m)) [
  | inl u ↦ ground arith
  | inr u ↦ ground arith
]
MessageAnswers-answers ids m (blocks bs e h) = elim (Bool-cases (is_user m)) [
  | inl u ↦ ground (arith, Answers-all ids bs h)
  | inr u ↦ ground arith
]

pub Paired-paired : (ids : List Text) (ms : List Value) → Paired ids ms → paired ids ms ≡ true
unfolding paired
Paired-paired ids [] h = refl
Paired-paired ids (m ∷ ms) h =
    ground (arith, MessageAnswers-answers ids m h.0, Paired-paired (collect_tool_use_ids m) ms h.1)
