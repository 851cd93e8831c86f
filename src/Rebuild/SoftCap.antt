-- ===== src/Rebuild/SoftCap.antt =====
-- The soft-cap reduction of src/rebuild.rs: four tiers, each until the body fits.
pub mod Tiers
pub mod Outcome
mod Written
pub mod Pairs
pub mod Called
pub mod Tools
mod Tests
use ostk_cache.Prelude.{
  ℕ, zero, suc, ◌+◌, ◌-◌, Bool, true, false, not, ◌&&◌, ◌||◌, List, [], ◌∷◌, ◌++◌, Option, none,
  some, Text, codes, leb, ltb, ◌==◌, if◌then◌else◌, length, get_elem?, drop, take, retain,
  modify_at, ◌>>=◌,
}
use ostk_cache.Json.{
  Value, array, object, cons, nil, get, get_str, get_array, update, update_array, put, is_object,
  text_block, has_str,
}
use ostk_cache.Size.{Printer, json_size, fmt_bytes}
use ostk_cache.Rebuild.Messages.{
  contains, is_user, is_assistant, is_tool_result, is_tool_use, message_contains_tool_use,
  message_only_tool_results,
}

pub record ReductionReport : Type 0 where
  pub bytes_before : ℕ
  pub bytes_after : ℕ
  pub tier_a_ejected : ℕ
  pub tier_a_bytes_recovered : ℕ
  pub tier_b_pairs_pruned : ℕ
  pub tier_c_tools_dropped : ℕ
  pub irreducible : Bool

unfoldable pub applied_any : ReductionReport → Bool
applied_any r =
    ltb 0 r.tier_a_ejected
    || (ltb 0 r.tier_b_pairs_pruned || (ltb 0 r.tier_c_tools_dropped || r.irreducible))

abbrev pub tier_a_ejection_threshold : ℕ
tier_a_ejection_threshold = 102400

-- A tool result above the threshold: its message, its block, its size.
pub record Candidate : Type 0 where
  pub message : ℕ
  pub block : ℕ
  pub size : ℕ

-- `candidates.sort_by_key(Reverse(size))`, which is stable.
insert_candidate : Candidate → List Candidate → List Candidate
insert_candidate c [] = c ∷ []
insert_candidate c (d ∷ ds) = if leb d.size c.size then c ∷ d ∷ ds else d ∷ insert_candidate c ds

sort_candidates : List Candidate → List Candidate
unfolding insert_candidate
sort_candidates [] = []
sort_candidates (c ∷ cs) = insert_candidate c (sort_candidates cs)

-- The first assistant message with a tool call whose next message is a user's with tool results
-- only, where at least one more message follows: the loop `for i in 1..len - 2`, on the suffix at 1.
unfoldable pub is_pair : Value → Value → Bool
is_pair a u =
    is_assistant a && message_contains_tool_use a && (is_user u && message_only_tool_results u)

unfoldable pub find_pair : List Value → Option ℕ
find_pair (a ∷ u ∷ x ∷ rest) =
    let later = find_pair (u ∷ x ∷ rest) in
    if is_pair a u then some 0 else elim later [ none ↦ none | some i ↦ some (suc i) ]
find_pair _ = none

unfoldable pub prune_idx : List Value → Option ℕ
unfolding find_pair
prune_idx [] = none
prune_idx (m ∷ ms) = elim (find_pair ms) [ none ↦ none | some i ↦ some (suc i) ]

-- `messages.drain(i..=i + 1)`
unfoldable pub drain_pair : ℕ → List Value → List Value
drain_pair zero ms = drop 2 ms
drain_pair (suc i) [] = []
drain_pair (suc i) (m ∷ ms) = m ∷ drain_pair i ms

-- One round of Tier B: a pair is taken out, where there is one.
unfoldable pub prune_once : Value → Option Value
prune_once value = do
  ms ← get_array "messages" value
  i ← prune_idx ms
  some (update_array "messages" (drain_pair i) value)

-- The names that the tool calls of some blocks, and of some messages, refer to.
unfoldable pub call_names : List Value → List Text
call_names [] = []
call_names (b ∷ bs) =
    let rest = call_names bs in
    if is_tool_use b
    then elim (get_str "name" b) [ none ↦ rest | some name ↦ name ∷ rest ]
    else rest

unfoldable pub referenced : List Value → List Text
unfolding call_names
referenced [] = []
referenced (m ∷ ms) =
    let rest = referenced ms in
    elim (get_array "content" m) [ none ↦ rest | some bs ↦ call_names bs ++ rest ]

-- A tool without a name stays.
unfoldable pub keep_tool : List Text → Value → Bool
keep_tool names tool = elim (get_str "name" tool) [ none ↦ true | some n ↦ contains names n ]

unfoldable pub drop_unreferenced_tools : Value → ReductionReport → Value × ReductionReport
drop_unreferenced_tools value report =
    let names = elim (get_array "messages" value) as (λ _. List Text) [
      | none ↦ []
      | some ms ↦ referenced ms
    ] in
    elim (get_array "tools" value) [
      | none ↦ (value, report)
      | some tools ↦ (
        update_array "tools" (retain (keep_tool names)) value,
        record report {
          tier_c_tools_dropped = length tools - length (retain (keep_tool names) tools);
        },
      )
    ]

-- The UTF-8 bytes of the arrow between blanks.
abbrev arrow : Text
arrow = 0x20 ∷ 0xe2 ∷ 0x86 ∷ 0x92 ∷ 0x20 ∷ []

module _ (out : Printer) where
  abbrev pub current_body_size : Value → ℕ
  current_body_size value = json_size out value

  content_size : Value → ℕ
  content_size block = elim (get "content" block) [ none ↦ 0 | some c ↦ json_size out c ]

  block_candidates : ℕ → ℕ → List Value → List Candidate
  block_candidates mi bi [] = []
  block_candidates mi bi (b ∷ bs) =
      let rest = block_candidates mi (suc bi) bs in
      if is_tool_result b && leb tier_a_ejection_threshold (content_size b)
      then record { message = mi; block = bi; size = content_size b } ∷ rest
      else rest

  message_candidates : ℕ → List Value → List Candidate
  message_candidates mi [] = []
  message_candidates mi (m ∷ ms) =
      let rest = message_candidates (suc mi) ms in
      elim (get_array "content" m) [ none ↦ rest | some bs ↦ block_candidates mi 0 bs ++ rest ]

  stub : ℕ → Value
  stub original = array (
      cons
        (text_block (
          codes "[ejected by ostk-cache soft-cap: "
          ++ (fmt_bytes out original ++ (arrow ++ codes "60b. Re-run the call if needed.]"))))
        nil)

  -- Whether the path to a candidate's block is there, as the guards of the loop ask. It always is:
  -- the candidates are of this value, and an ejection keeps every block in its place.
  reaches : Value → Candidate → Bool
  reaches value c = elim (get_array "messages" value) [
    | none ↦ false
    | some ms ↦ elim (get_elem? ms c.message) [
      | none ↦ false
      | some m ↦ elim (get_array "content" m) [
        | none ↦ false
        | some bs ↦ elim (get_elem? bs c.block) [ none ↦ false | some b ↦ is_object b ]
      ]
    ]
  ]

  -- `obj.insert("content", stub)` on the block.
  unfoldable pub eject : Value → Candidate → Value
  unfolding stub
  eject value c =
      update_array "messages"
        (modify_at c.message
          (update_array "content" (modify_at c.block (put "content" (stub c.size)))))
        value

  unfoldable pub eject_all : ℕ → List Candidate → Value → ReductionReport → Value × ReductionReport
  unfolding reaches
  eject_all limit [] value report = (value, report)
  eject_all limit (c ∷ cs) value report =
      if leb (current_body_size value) limit
      then (value, report)
      else (let hit = reaches value c in
          eject_all limit cs (if hit then eject value c else value) (
            if hit
            then record report {
              tier_a_ejected = report.tier_a_ejected + 1;
              tier_a_bytes_recovered = report.tier_a_bytes_recovered + c.size;
            }
            else report))

  unfoldable pub eject_large_tool_results : Value → ℕ → ReductionReport → Value × ReductionReport
  unfolding eject_all message_candidates block_candidates content_size sort_candidates
  eject_large_tool_results value limit report =
      let found = elim (get_array "messages" value) as (λ _. List Candidate) [
        | none ↦ []
        | some ms ↦ message_candidates 0 ms
      ] in
      eject_all limit (sort_candidates found) value report

  -- The loop of Tier B; each round takes two messages out.
  unfoldable pub prune_loop : ℕ → Value → ℕ → ReductionReport → Value × ReductionReport
  prune_loop zero value limit report = (value, report)
  prune_loop (suc fuel) value limit report =
      if leb (current_body_size value) limit then (value, report) else elim (prune_once value) [
        | none ↦ (value, report)
        | some value' ↦
            prune_loop fuel value' limit
              (record report { tier_b_pairs_pruned = report.tier_b_pairs_pruned + 1 })
      ]

  message_count : Value → ℕ
  message_count value = elim (get_array "messages" value) [ none ↦ 0 | some ms ↦ length ms ]

  unfoldable pub prune_oldest_inflight_pairs : Value → ℕ → ReductionReport → Value × ReductionReport
  unfolding prune_loop message_count
  prune_oldest_inflight_pairs value limit report =
      prune_loop (suc (message_count value)) value limit report

  abbrev no_reduction : Value → ReductionReport
  no_reduction value = record {
    bytes_before = current_body_size value;
    bytes_after = current_body_size value;
    tier_a_ejected = 0;
    tier_a_bytes_recovered = 0;
    tier_b_pairs_pruned = 0;
    tier_c_tools_dropped = 0;
    irreducible = false;
  }

  -- `report.bytes_after = current_body_size(value)`
  abbrev measured : Value × ReductionReport → Value × ReductionReport
  measured (value, report) = (value, record report { bytes_after = current_body_size value })

  -- Tiers in turn, each where the body is still above the limit.
  unfoldable pub tier_d : ℕ → Value × ReductionReport → Value × ReductionReport
  tier_d limit (value, report) =
      if leb report.bytes_after limit
      then (value, report)
      else (value, record report { irreducible = true })

  unfoldable pub tier_c : ℕ → Value × ReductionReport → Value × ReductionReport
  tier_c limit (value, report) =
      if leb report.bytes_after limit
      then (value, report)
      else tier_d limit (measured (drop_unreferenced_tools value report))

  unfoldable pub tier_b : ℕ → Value × ReductionReport → Value × ReductionReport
  tier_b limit (value, report) =
      if leb report.bytes_after limit
      then (value, report)
      else tier_c limit (measured (prune_oldest_inflight_pairs value limit report))

  unfoldable pub enforce_soft_cap : Value → ℕ → Value × ReductionReport
  enforce_soft_cap value limit =
      if limit == 0 || leb (current_body_size value) limit
      then (value, no_reduction value)
      else tier_b limit (measured (eject_large_tool_results value limit (no_reduction value)))
