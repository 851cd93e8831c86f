-- ===== src/ReminderStrip/Prune.antt =====
-- Pruning of empty text blocks in src/system_reminder_strip.rs.
use ostk_cache.Prelude.{
  ℕ, zero, suc, ◌<◌, ◌==◌, ◌≡◌, ◌≢◌, refl, ap, ◌∙◌, sym, Bool, true, false, not, ◌&&◌, Option, none,
  some, String, Text, [], ◌∷◌, arith, codes, eqb, ◌>>=◌, Bool-cases, inl, inr,
}
use ostk_cache.Json.{
  Value, null, bool, num, literal, str, array, object, Elements, nil, cons, Entries, end, entry,
  lookup, has_str, as_str,
}
use ostk_cache.ReminderStrip.{
  is_empty_text, refill, prune_empty_text_blocks, prune_items, prune_fields, clean_content,
  strip_reminders_recursive, fill_string,
}

-- No array below holds an empty text block.
unfoldable mutual
  pub no_empty_text : Value → Bool
  no_empty_text (array xs) = no_empty_items xs
  no_empty_text (object fs) = no_empty_fields fs
  no_empty_text null = true
  no_empty_text (bool b) = true
  no_empty_text (num n) = true
  no_empty_text (literal t) = true
  no_empty_text (str s) = true

  pub no_empty_items : Elements → Bool
  no_empty_items nil = true
  no_empty_items (cons x xs) = not (is_empty_text x) && (no_empty_text x && no_empty_items xs)

  pub no_empty_fields : Entries → Bool
  no_empty_fields end = true
  no_empty_fields (entry k v fs) = no_empty_text v && no_empty_fields fs

as_str-prune : (v : Value) → as_str (prune_empty_text_blocks v).0 ≡ as_str v
unfolding prune_empty_text_blocks
as_str-prune (array xs) = refl
as_str-prune _ = refl

string_at : String → Entries → Option Text
string_at k fs = lookup k fs >>= as_str

string_at-prune_fields :
    (k : String) (fs : Entries) → string_at k (prune_fields fs).0 ≡ string_at k fs
unfolding string_at lookup prune_fields
string_at-prune_fields k end = refl
string_at-prune_fields k (entry j v fs) =
    ground (arith, as_str-prune v, string_at-prune_fields k fs)

has_str-string_at :
    (k s : String) (fs : Entries)
    → has_str k s (object fs)
      ≡ elim (string_at k fs) as (λ _. Bool) [ none ↦ false | some t ↦ eqb t (codes s) ]
unfolding has_str string_at
has_str-string_at k s fs = refl

has_str-prune_fields :
    (k s : String) (fs : Entries)
    → has_str k s (object (prune_fields fs).0) ≡ has_str k s (object fs)
has_str-prune_fields k s fs =
    has_str-string_at k s (prune_fields fs).0
    ∙ ap (λ (o : Option Text). elim o as (λ _. Bool) [ none ↦ false | some t ↦ eqb t (codes s) ])
        (string_at-prune_fields k fs)
    ∙ sym (has_str-string_at k s fs)

-- Pruning inside a block leaves it an empty text block, or not one.
is_empty_text-prune : (v : Value) → is_empty_text (prune_empty_text_blocks v).0 ≡ is_empty_text v
unfolding is_empty_text prune_empty_text_blocks
is_empty_text-prune (object fs) =
    λ i. has_str-prune_fields "type" "text" fs i && has_str-prune_fields "text" "" fs i
is_empty_text-prune _ = refl

refill_clean :
    (n : ℕ) (xs : Elements) → no_empty_items xs ≡ true → no_empty_items (refill n xs).0 ≡ true
unfolding refill no_empty_text is_empty_text lookup
refill_clean zero xs h = h
refill_clean (suc n) nil h = refl
refill_clean (suc n) (cons x xs) h = h

mutual
  unfolding prune_empty_text_blocks no_empty_text

  prune_clean : (v : Value) → no_empty_text (prune_empty_text_blocks v).0 ≡ true
  prune_clean (array xs) = refill_clean (prune_items xs).1 (prune_items xs).0 (prune_items_clean xs)
  prune_clean (object fs) = prune_fields_clean fs
  prune_clean null = refl
  prune_clean (bool b) = refl
  prune_clean (num n) = refl
  prune_clean (literal t) = refl
  prune_clean (str s) = refl

  prune_items_clean : (xs : Elements) → no_empty_items (prune_items xs).0 ≡ true
  prune_items_clean nil = refl
  prune_items_clean (cons x xs) =
      ground (arith, is_empty_text-prune x, prune_clean x, prune_items_clean xs)

  prune_fields_clean : (fs : Entries) → no_empty_fields (prune_fields fs).0 ≡ true
  prune_fields_clean end = refl
  prune_fields_clean (entry k v fs) = ground (arith, prune_clean v, prune_fields_clean fs)

nil_of_arr : {xs : Elements} → array xs ≡ array nil → xs ≡ nil
nil_of_arr e = cc

refill_dropped : (n : ℕ) (xs : Elements) → (refill (suc n) xs).0 ≢ nil
unfolding refill
refill_dropped n nil e = cc
refill_dropped n (cons x xs) e = cc

refill_kept : (n : ℕ) (x : Value) (xs : Elements) → (refill n (cons x xs)).0 ≢ nil
unfolding refill
refill_kept zero x xs e = cc
refill_kept (suc n) x xs e = cc

-- An array that held items holds some after pruning.
pub prune_nonempty :
    (x : Value) (xs : Elements) → (prune_empty_text_blocks (array (cons x xs))).0 ≢ array nil
unfolding prune_empty_text_blocks
prune_nonempty x xs e = elim (Bool-cases (is_empty_text x)) [
  | inl h ↦ refill_dropped (prune_items xs).1 (prune_items xs).0 (rw h at (nil_of_arr e))
  | inr h ↦ refill_kept (prune_items xs).1 _ (prune_items xs).0 (rw h at (nil_of_arr e))
]

fill_string_clean :
    (v : Value)
    → no_empty_text v ≡ true
    → (no_empty_text (fill_string v).0 ≡ true) × ((fill_string v).0 ≢ str [])
unfolding fill_string no_empty_text
fill_string_clean (str []) h = (refl, λ e. cc e)
fill_string_clean (str (c ∷ s)) h = (refl, λ e. cc e)
fill_string_clean (array xs) h = (h, λ e. cc e)
fill_string_clean (object fs) h = (h, λ e. cc e)
fill_string_clean null h = (refl, λ e. cc e)
fill_string_clean (bool b) h = (refl, λ e. cc e)
fill_string_clean (num n) h = (refl, λ e. cc e)
fill_string_clean (literal t) h = (refl, λ e. cc e)

-- Where a reminder was cut out of a message's content, what is left holds no empty text block in
-- any array, and is not the empty string.
pub clean_content_clean :
    (content : Value)
    → 0 < (clean_content content).1.blocks_removed
    → (no_empty_text (clean_content content).0 ≡ true) × ((clean_content content).0 ≢ str [])
unfolding clean_content
clean_content_clean content h =
    elim (Bool-cases ((strip_reminders_recursive content).1.blocks_removed == 0)) [
      | inl z ↦ absurd (ground arith)
      | inr p ↦ rw p (
          fill_string_clean (prune_empty_text_blocks (strip_reminders_recursive content).0).0
            (prune_clean (strip_reminders_recursive content).0))
    ]
