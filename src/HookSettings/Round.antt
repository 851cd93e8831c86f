-- ===== src/HookSettings/Round.antt =====
-- One round of `install` of src/bin/hooks.rs, for one event.
use text.Mathlib.Text.{◌==◌ as str_eq}
use text.Mathlib.TextEquality.{eq_iff}
use text.Mathlib.TextPositions.{eq_refl}
use ostk_cache.Prelude.{
  ◌≡◌, refl, ap, ◌∙◌, Bool, true, false, List, [], ◌∷◌, ◌++◌, Option, none, some, String, Text,
  codes, arith, any, ◌>>=◌, Bool-cases, Option-cases, inl, inr, starts_with_append,
}
use ostk_cache.Json.{
  Value, array, nil, Entries, end, lookup, insert, modify, get_array, get_str, as_array, from_list,
}
use ostk_cache.Json.Laws.{lookup-insert, lookup-modify, to_list-from_list}
use ostk_cache.HookSettings.{
  Result, ok, err, entry_matches_dispatch, or_insert, command_of, new_entry, add_event, push_entry,
}

-- An event with an entry that runs the script.
pub has_match : Text → Option (List Value) → Bool
has_match dispatch none = false
has_match dispatch (some arr) = any (entry_matches_dispatch dispatch) arr

pub is_registered : Text → String → Entries → Bool
unfolding has_match
is_registered dispatch event hooks = has_match dispatch (lookup event hooks >>= as_array)

pub new_entry_matches :
    (m : Bool) (dispatch : Text) (event : String)
    → entry_matches_dispatch dispatch (new_entry m (command_of dispatch event)) ≡ true
unfolding entry_matches_dispatch new_entry any get_array get_str
new_entry_matches true dispatch event = rw (starts_with_append dispatch (b' ' ∷ codes event)) refl
new_entry_matches false dispatch event = rw (starts_with_append dispatch (b' ' ∷ codes event)) refl

pub any-append :
    (p : Value → Bool) (xs : List Value) (e : Value) → p e ≡ true → any p (xs ++ e ∷ []) ≡ true
unfolding any
any-append p [] e h = rw h refl
any-append p (x ∷ xs) e h = ground (arith, any-append p xs e h)

pub or_insert_same :
    (k : String) (w v : Value) (fs : Entries) → lookup k fs ≡ some v → or_insert k w fs ≡ fs
unfolding or_insert
or_insert_same k w v fs h = ground arith

pub or_insert_new :
    (k : String) (w : Value) (fs : Entries) → lookup k fs ≡ none → or_insert k w fs ≡ insert k w fs
unfolding or_insert
or_insert_new k w fs h = ground arith

pub lookup-or_insert_ne :
    (k j : String) (w : Value) (fs : Entries)
    → str_eq k j ≡ false
    → lookup j (or_insert k w fs) ≡ lookup j fs
lookup-or_insert_ne k j w fs h = elim (Option-cases (lookup k fs)) [
  | inl new ↦ rw (or_insert_new k w fs new, lookup-insert k j w fs, h) refl
  | inr (v, old) ↦ rw (or_insert_same k w v fs old) refl
]

pub lookup-modify_ne :
    (k j : String) (f : Value → Value) (fs : Entries)
    → str_eq k j ≡ false
    → lookup j (modify k f fs) ≡ lookup j fs
lookup-modify_ne k j f fs h = rw (lookup-modify k j f fs, h) refl

pub lookup-modify_self :
    (k : String) (w v : Value) (fs : Entries)
    → lookup k fs ≡ some v
    → lookup k (modify k (λ _. w) fs) ≡ some w
lookup-modify_self k w v fs h = rw (lookup-modify k k (λ _. w) fs, eq_refl k, h) refl

pub same_registered :
    (dispatch : Text) (event : String) (hooks hooks' : Entries)
    → lookup event hooks' ≡ lookup event hooks
    → is_registered dispatch event hooks ≡ true
    → is_registered dispatch event hooks' ≡ true
unfolding is_registered
same_registered dispatch event hooks hooks' e h = rw e h

pub missing_unregistered :
    (dispatch : Text) (event : String) (hooks : Entries)
    → lookup event hooks ≡ none
    → ¬ (is_registered dispatch event hooks ≡ true)
unfolding is_registered has_match
missing_unregistered dispatch event hooks e h = ground arith

pub entries_of : Result (Entries × Bool) → Entries
entries_of (ok r) = r.0
entries_of (err e) = end

pub push_registered :
    (dispatch : Text) (event : String) (m : Bool) (hooks : Entries) (o : Option (List Value))
    → has_match dispatch o ≡ true
    → push_entry dispatch event m hooks o ≡ ok (hooks, false)
unfolding push_entry has_match
push_registered dispatch event m hooks none h = cc
push_registered dispatch event m hooks (some arr) h = rw h refl

-- A registered event is left as it is.
pub add_registered :
    (dispatch : Text) (event : String) (m : Bool) (hooks : Entries)
    → is_registered dispatch event hooks ≡ true
    → add_event dispatch event m hooks ≡ ok (hooks, false)
unfolding add_event is_registered
add_registered dispatch event m hooks h = elim (Option-cases (lookup event hooks)) [
  | inl missing ↦ absurd (missing_unregistered dispatch event hooks missing h)
  | inr (v, e) ↦
      rw (or_insert_same event (array nil) v hooks e)
        (push_registered dispatch event m hooks (lookup event hooks >>= as_array) h)
]

pub lookup_of_array :
    (event : String) (hooks : Entries) (arr : List Value)
    → (lookup event hooks >>= as_array) ≡ some arr
    → (v : Value) × (lookup event hooks ≡ some v)
lookup_of_array event hooks arr h = elim (Option-cases (lookup event hooks)) [
  | inl missing ↦ absurd (cc (ap (λ (o : Option Value). o >>= as_array) missing))
  | inr found ↦ found
]

pub pushed-registers :
    (dispatch : Text) (event : String) (hooks : Entries) (arr : List Value) (e : Value)
    → (lookup event hooks >>= as_array) ≡ some arr
    → entry_matches_dispatch dispatch e ≡ true
    → is_registered dispatch event (modify event (λ _. array (from_list (arr ++ e ∷ []))) hooks)
      ≡ true
unfolding is_registered has_match
pushed-registers dispatch event hooks arr e h m =
    let (v, found) = lookup_of_array event hooks arr h in
    rw
      (
        lookup-modify_self event (array (from_list (arr ++ e ∷ []))) v hooks found,
        to_list-from_list (arr ++ e ∷ []),
      )
      (any-append (entry_matches_dispatch dispatch) arr e m)

pub push-registers :
    (dispatch : Text) (event : String) (m : Bool) (hooks hooks' : Entries) (added : Bool)
    (o : Option (List Value))
    → (lookup event hooks >>= as_array) ≡ o
    → push_entry dispatch event m hooks o ≡ ok (hooks', added)
    → is_registered dispatch event hooks' ≡ true
unfolding push_entry entries_of is_registered
push-registers dispatch event m hooks hooks' added none e h = cc
push-registers dispatch event m hooks hooks' added (some arr) e h =
    let same : entries_of (push_entry dispatch event m hooks (some arr)) ≡ hooks' =
      ap entries_of h in
    elim (Bool-cases (any (entry_matches_dispatch dispatch) arr)) [
      | inl old ↦ rw (← same, old, e) old
      | inr new ↦
          rw (← same, new)
            (pushed-registers dispatch event hooks arr (new_entry m (command_of dispatch event)) e
              (new_entry_matches m dispatch event))
    ]

pub push_other :
    (dispatch : Text) (event other : String) (m : Bool) (hooks hooks' : Entries) (added : Bool)
    (o : Option (List Value))
    → str_eq event other ≡ false
    → push_entry dispatch event m hooks o ≡ ok (hooks', added)
    → lookup other hooks' ≡ lookup other hooks
unfolding push_entry
push_other dispatch event other m hooks hooks' added none ne h = cc
push_other dispatch event other m hooks hooks' added (some arr) ne h = ground (
  arith,
  lookup-modify_ne event other
      (λ _. array (from_list (arr ++ new_entry m (command_of dispatch event) ∷ []))) hooks ne,
)

pub add_event-registers :
    (dispatch : Text) (event : String) (m : Bool) (hooks hooks' : Entries) (added : Bool)
    → add_event dispatch event m hooks ≡ ok (hooks', added)
    → is_registered dispatch event hooks' ≡ true
unfolding add_event
add_event-registers dispatch event m hooks hooks' added h =
    push-registers dispatch event m (or_insert event (array nil) hooks) hooks' added _ refl h

pub add_event_other :
    (dispatch : Text) (event other : String) (m : Bool) (hooks hooks' : Entries) (added : Bool)
    → add_event dispatch event m hooks ≡ ok (hooks', added)
    → is_registered dispatch other hooks ≡ true
    → is_registered dispatch other hooks' ≡ true
unfolding add_event
add_event_other dispatch event other m hooks hooks' added h r =
    elim (Bool-cases (str_eq event other)) [
      | inl same ↦
          rw (← (eq_iff event other).0 same)
            (add_event-registers dispatch event m hooks hooks' added h)
      | inr ne ↦
          same_registered dispatch other hooks hooks'
            (push_other dispatch event other m (or_insert event (array nil) hooks) hooks' added _ ne
                h
              ∙ lookup-or_insert_ne event other (array nil) hooks ne)
            r
    ]
