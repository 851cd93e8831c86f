-- ===== src/HookSettings/Removal.antt =====
-- `uninstall` takes out what a round of `install` has put in.
use text.Mathlib.Text.{◌==◌ as str_eq}
use ostk_cache.Prelude.{
  ℕ, ◌+◌, ◌≡◌, refl, ap, ◌∙◌, Bool, true, not, List, [], ◌∷◌, ◌++◌, Option, none, some, String,
  Text, arith, retain, length, length-append, length-retain-le, if◌then◌else◌, ◌>>=◌, Bool-cases,
  Option-cases, inl, inr,
}
use ostk_cache.Json.{
  Value, array, nil, Entries, end, entry, lookup, insert, modify, as_array, from_list,
}
use ostk_cache.Json.Laws.{to_list-from_list}
use ostk_cache.HookSettings.Round.{new_entry_matches, or_insert_same, or_insert_new}
use ostk_cache.HookSettings.Events.{rounds}
use ostk_cache.HookSettings.{
  ok, entry_matches_dispatch, or_insert, command_of, new_entry, push_entry, add_event, add_events,
  keep_event, uninstall_event, uninstall_events,
}

-- The count of a result goes up.
abbrev pub more {ℓ} : {A : Type ℓ} → ℕ → Option (A × ℕ) → Option (A × ℕ)
more k none = none
more k (some (a, n)) = some (a, n + k)

module _ (dispatch : Text) where
  abbrev others : List Value → List Value
  others = retain (λ e. not (entry_matches_dispatch dispatch e))

  retain-push :
      (arr : List Value) (e : Value)
      → entry_matches_dispatch dispatch e ≡ true
      → others (arr ++ e ∷ []) ≡ others arr
  unfolding retain
  retain-push [] e m = rw m refl
  retain-push (x ∷ arr) e m = rw (retain-push arr e m) refl

  event-push :
      (event : String) (arr : List Value) (e : Value) (rest : Option (Entries × ℕ))
      → entry_matches_dispatch dispatch e ≡ true
      → uninstall_event dispatch event (some (arr ++ e ∷ [])) rest
        ≡ more 1 (uninstall_event dispatch event (some arr) rest)
  unfolding uninstall_event
  event-push event arr e none m = refl
  event-push event arr e (some (fs, removed)) m = rw (retain-push arr e m) (
      ap (λ n. some (keep_event event (others arr) fs, n))
        (omega (
          arith,
          length-append {0} arr (e ∷ []),
          length-retain-le {0} (λ x. not (entry_matches_dispatch dispatch x)) arr,
        )))

  event-more :
      (event : String) (o : Option (List Value)) (rest : Option (Entries × ℕ))
      → uninstall_event dispatch event o (more 1 rest)
        ≡ more 1 (uninstall_event dispatch event o rest)
  unfolding uninstall_event
  event-more event none rest = refl
  event-more event (some arr) none = refl
  event-more event (some arr) (some (fs, removed)) =
      ap (λ n. some (keep_event event (others arr) fs, n)) (omega arith)

  event-nil :
      (event : String) (rest : Option (Entries × ℕ))
      → uninstall_event dispatch event (some []) rest ≡ rest
  unfolding uninstall_event keep_event retain
  event-nil event none = refl
  event-nil event (some (fs, removed)) = ap (λ n. some (fs, n)) (omega arith)

  -- An event that is put in with no entry does not show.
  uninstall-insert :
      (event : String) (fs : Entries)
      → lookup event fs ≡ none
      → uninstall_events dispatch (insert event (array nil) fs) ≡ uninstall_events dispatch fs
  unfolding uninstall_events insert lookup
  uninstall-insert event end h = event-nil event _
  uninstall-insert event (entry j v fs) h =
      ground (
        arith,
        uninstall-insert event fs,
        event-nil event (uninstall_events dispatch (entry j v fs)),
      )

  -- An entry of the script that is put in is taken out.
  uninstall-push :
      (event : String) (e : Value) (arr : List Value) (fs : Entries)
      → entry_matches_dispatch dispatch e ≡ true
      → (lookup event fs >>= as_array) ≡ some arr
      → uninstall_events dispatch (modify event (λ _. array (from_list (arr ++ e ∷ []))) fs)
        ≡ more 1 (uninstall_events dispatch fs)
  unfolding uninstall_events modify lookup
  uninstall-push event e arr end m h = cc
  uninstall-push event e arr (entry j v fs) m h = elim (Bool-cases (str_eq j event)) [
    | inl here ↦
        let o : as_array v ≡ some arr = rw here at h in
        rw (here, o)
          (ap (λ l. uninstall_event dispatch j (some l) (uninstall_events dispatch fs))
              (to_list-from_list (arr ++ e ∷ []))
            ∙ event-push j arr e (uninstall_events dispatch fs) m)
    | inr later ↦
        rw (later, uninstall-push event e arr fs m (rw later at h))
          (event-more j (as_array v) (uninstall_events dispatch fs))
  ]

  uninstall-or_insert :
      (event : String) (fs : Entries)
      → uninstall_events dispatch (or_insert event (array nil) fs) ≡ uninstall_events dispatch fs
  uninstall-or_insert event fs = elim (Option-cases (lookup event fs)) [
    | inl new ↦ rw (or_insert_new event (array nil) fs new) (uninstall-insert event fs new)
    | inr (v, old) ↦ rw (or_insert_same event (array nil) v fs old) refl
  ]

  abbrev one_if : Bool → ℕ
  one_if b = if b then 1 else 0

  more_zero : (o : Option (Entries × ℕ)) → more 0 o ≡ o
  more_zero none = refl
  more_zero (some (fs, n)) = ap (λ k. some (fs, k)) (omega arith)

  more-more : (a b : ℕ) (o : Option (Entries × ℕ)) → more a (more b o) ≡ more (a + b) o
  more-more a b none = refl
  more-more a b (some (fs, n)) = ap (λ k. some (fs, k)) (omega arith)

  uninstall-push_entry :
      (event : String) (m : Bool) (hooks hooks' : Entries) (added : Bool) (o : Option (List Value))
      → (lookup event hooks >>= as_array) ≡ o
      → push_entry dispatch event m hooks o ≡ ok (hooks', added)
      → uninstall_events dispatch hooks' ≡ more (one_if added) (uninstall_events dispatch hooks)
  unfolding push_entry
  uninstall-push_entry event m hooks hooks' added none e h = cc
  uninstall-push_entry event m hooks hooks' added (some arr) e h = ground (
    arith,
    more_zero (uninstall_events dispatch hooks),
    uninstall-push event (new_entry m (command_of dispatch event)) arr hooks
        (new_entry_matches m dispatch event) e,
  )

  uninstall-add_event :
      (event : String) (m : Bool) (hooks hooks' : Entries) (added : Bool)
      → add_event dispatch event m hooks ≡ ok (hooks', added)
      → uninstall_events dispatch hooks' ≡ more (one_if added) (uninstall_events dispatch hooks)
  unfolding add_event
  uninstall-add_event event m hooks hooks' added h =
      uninstall-push_entry event m (or_insert event (array nil) hooks) hooks' added _ refl h
      ∙ ap (more (one_if added)) (uninstall-or_insert event hooks)

  pub uninstall-add_events :
      (es : List (String × Bool)) (hooks hooks' : Entries) (added : List String)
      → add_events dispatch es hooks ≡ ok (hooks', added)
      → uninstall_events dispatch hooks' ≡ more (length added) (uninstall_events dispatch hooks)
  unfolding add_events
  uninstall-add_events [] hooks hooks' added h =
      ground (arith, more_zero (uninstall_events dispatch hooks))
  uninstall-add_events ((event, m) ∷ es) hooks hooks' added h =
      let s = rounds dispatch event m es hooks hooks' added h in
      uninstall-add_events es s.between hooks' s.rest s.others
      ∙ ap (more (length s.rest)) (uninstall-add_event event m hooks s.between s.first s.one)
      ∙ more-more (length s.rest) (one_if s.first) (uninstall_events dispatch hooks)
      ∙ ap (λ n. more n (uninstall_events dispatch hooks)) (ground (arith, s.names))
