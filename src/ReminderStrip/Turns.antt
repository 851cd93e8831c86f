-- ===== src/ReminderStrip/Turns.antt =====
-- Which messages src/system_reminder_strip.rs leaves alone.
use ostk_cache.Prelude.{
  ℕ, zero, suc, ◌≡◌, ◌≢◌, refl, ap, ◌∙◌, Bool, true, not, ◌&&◌, List, [], ◌∷◌, Option, none, some,
  String, arith, Option-cases, inl, inr, get_elem?, drop, all, ◌⊎◌, subst,
}
use ostk_cache.Json.{Value, get, get_array, update_array}
use ostk_cache.Json.Laws.{get-update_ne, get_array-update_array, get-update_array_ne, map_list}
use ostk_cache.ReminderStrip.{
  is_user, is_tool_result_user_message, rposition, protected_current_user_idx, clean_message,
  clean_messages, clean_content, strip_system_reminders_from_past_turns,
}

-- The element at an index satisfies the test, and none behind it does.
pub record IsLast (p : Value → Bool) (ms : List Value) (i : ℕ) : Type 0 where
  pub message : Value
  pub at_index : get_elem? ms i ≡ some message
  pub passes : p message ≡ true
  pub none_later : all (λ m. not (p m)) (drop (suc i) ms) ≡ true

rposition-none :
    (p : Value → Bool) (ms : List Value) → rposition p ms ≡ none → all (λ m. not (p m)) ms ≡ true
unfolding rposition all
rposition-none p [] e = refl
rposition-none p (m ∷ ms) e = ground (arith, rposition-none p ms)

pub rposition-some :
    (p : Value → Bool) (ms : List Value) (i : ℕ) → rposition p ms ≡ some i → IsLast p ms i
unfolding rposition
rposition-some p [] i e = cc
rposition-some p (m ∷ ms) i e = elim (Option-cases (rposition p ms)) [
  | inl z ↦
      let h : p m ≡ true = ground arith in
      let at : 0 ≡ i = ground arith in
      subst (λ n. IsLast p (m ∷ ms) n) at
        (record { message = m; at_index = refl; passes = h; none_later = rposition-none p ms z })
  | inr (j, z) ↦
      let l = rposition-some p ms j z in
      let at : suc j ≡ i = ground arith in
      subst (λ n. IsLast p (m ∷ ms) n) at
        (record {
          message = l.message;
          at_index = l.at_index;
          passes = l.passes;
          none_later = l.none_later;
        })
]

abbrev pub is_real_user : Value → Bool
is_real_user m = is_user m && not (is_tool_result_user_message m)

-- The message of the current turn: the last user message that is not all tool results; where there
-- is no such message, the last user message.
abbrev pub IsCurrent : List Value → ℕ → Type 0
IsCurrent ms i =
    IsLast is_real_user ms i ⊎ ((all (λ m. not (is_real_user m)) ms ≡ true) × IsLast is_user ms i)

protected-IsCurrent :
    (ms : List Value) (i : ℕ) → protected_current_user_idx ms ≡ some i → IsCurrent ms i
unfolding protected_current_user_idx
protected-IsCurrent ms i e = elim (Option-cases (rposition is_real_user ms)) [
  | inl z ↦ inr (rposition-none is_real_user ms z, rposition-some is_user ms i (rw z at e))
  | inr (j, z) ↦ inl (rposition-some is_real_user ms i (z ∙ (rw z at e)))
]

protected-none :
    (ms : List Value) → protected_current_user_idx ms ≡ none → all (λ m. not (is_user m)) ms ≡ true
unfolding protected_current_user_idx
protected-none ms e = elim (Option-cases (rposition is_real_user ms)) [
  | inl z ↦ rposition-none is_user ms (rw z at e)
  | inr (j, z) ↦ absurd (cc (rw z at e))
]

-- The same messages, each but for its content.
abbrev pub SameButContent : List Value → List Value → Type 0
SameButContent [] [] = Unit
SameButContent (m ∷ ms) (n ∷ ns) =
    ((k : String) → "content" ≢ k → get k n ≡ get k m) × SameButContent ms ns
SameButContent _ _ = ⊥

clean_message_keeps : (m : Value) (k : String) → "content" ≢ k → get k (clean_message m).0 ≡ get k m
unfolding clean_message
clean_message_keeps m k h = elim (Option-cases (get "content" m)) [
  | inl z ↦ ground arith
  | inr (c, z) ↦ ground (arith, get-update_ne "content" k (λ _. (clean_content c).0) m h)
]

clean_messages_keeps :
    (skip : Option ℕ) (ms : List Value) → SameButContent ms (clean_messages skip ms).0
unfolding clean_messages
clean_messages_keeps none [] = tt
clean_messages_keeps (some i) [] = tt
clean_messages_keeps (some zero) (m ∷ ms) = ((λ k h. refl), clean_messages_keeps none ms)
clean_messages_keeps (some (suc i)) (m ∷ ms) =
    (clean_message_keeps m, clean_messages_keeps (some i) ms)
clean_messages_keeps none (m ∷ ms) = (clean_message_keeps m, clean_messages_keeps none ms)

clean_messages_skip :
    (i : ℕ) (ms : List Value) → get_elem? (clean_messages (some i) ms).0 i ≡ get_elem? ms i
unfolding clean_messages
clean_messages_skip i [] = refl
clean_messages_skip zero (m ∷ ms) = refl
clean_messages_skip (suc i) (m ∷ ms) = clean_messages_skip i ms

strip_lem :
    (value : Value) (ms : List Value) (skip : Option ℕ)
    → get_array "messages" value ≡ some ms
    → protected_current_user_idx ms ≡ skip
    → (strip_system_reminders_from_past_turns value).0
      ≡ update_array "messages" (λ _. (clean_messages skip ms).0) value
unfolding strip_system_reminders_from_past_turns
strip_lem value ms skip e p = ground arith

-- No message is a user's, or the message of the current turn is the same.
abbrev pub CurrentKept : List Value → List Value → Type 0
CurrentKept ms ms' =
    (all (λ m. not (is_user m)) ms ≡ true)
    ⊎ ((i : ℕ) × IsCurrent ms i × (get_elem? ms' i ≡ get_elem? ms i))

cleaned-CurrentKept :
    (ms : List Value) (skip : Option ℕ)
    → protected_current_user_idx ms ≡ skip
    → CurrentKept ms (clean_messages skip ms).0
cleaned-CurrentKept ms none p = inl (protected-none ms p)
cleaned-CurrentKept ms (some i) p = inr (i, protected-IsCurrent ms i p, clean_messages_skip i ms)

-- Of a request with messages the strip leaves every key but `messages`, and every message's keys but
-- its content. Where there is a user message, it leaves one of them whole: the last that is not all
-- tool results, or, where each of them is, the last.
pub past_turns_only :
    (value : Value) (ms : List Value) (k : String)
    → get_array "messages" value ≡ some ms
    → "messages" ≢ k
    → (ms' : List Value) × (get_array "messages" (strip_system_reminders_from_past_turns value).0
        ≡ some ms')
      × SameButContent ms ms'
      × CurrentKept ms ms'
      × (get k (strip_system_reminders_from_past_turns value).0 ≡ get k value)
past_turns_only value ms k e h =
    let skip = protected_current_user_idx ms in
    let s = strip_lem value ms skip e refl in
    (
      (clean_messages skip ms).0,
      ap (get_array "messages") s
          ∙ get_array-update_array "messages" (λ _. (clean_messages skip ms).0) value
          ∙ ap (map_list (λ _. (clean_messages skip ms).0)) e,
      clean_messages_keeps skip ms,
      cleaned-CurrentKept ms skip refl,
      ap (get k) s ∙ get-update_array_ne "messages" k _ value h,
    )
