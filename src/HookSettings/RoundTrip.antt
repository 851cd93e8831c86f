-- ===== src/HookSettings/RoundTrip.antt =====
-- What `uninstall` makes of what `install` has written.
use ostk_cache.Prelude.{
  ℕ, ◌+◌, ◌-◌, ◌≡◌, ◌≢◌, refl, ap, sym, ◌∙◌, true, false, not, List, ◌∷◌, Option, some, String,
  Text, arith, all, length, retain-eq_of_all, ◌>>=◌, Option-cases, inl, inr,
}
use ostk_cache.Json.{
  Value, null, bool, num, literal, str, array, object, Entries, end, entry, lookup, modify, get,
  is_object, as_array, from_list,
}
use ostk_cache.Json.Laws.{from_list-to_list, modify_same}
use ostk_cache.HookSettings.Round.{or_insert_same}
use ostk_cache.HookSettings.Events.{installed, hooked, lookup-hooked, get_object}
use ostk_cache.HookSettings.{
  ok, events, entry_matches_dispatch, or_insert, as_object, install, keep_event, uninstall_event,
  uninstall_events, uninstall,
}
use ostk_cache.HookSettings.Removal.{more, uninstall-add_events}

module _ (dispatch : Text) where
  -- Hooks of others: each event has an array of entries, none of which runs the script.
  abbrev pub Foreign : Entries → Type 0
  Foreign end = Unit
  Foreign (entry event v fs) =
      ((e : Value) × (es : List Value) × (as_array v ≡ some (e ∷ es))
        × (all (λ x. not (entry_matches_dispatch dispatch x)) (e ∷ es) ≡ true))
      × Foreign fs

  as_array_of : (v : Value) (arr : List Value) → as_array v ≡ some arr → v ≡ array (from_list arr)
  as_array_of (array xs) arr h = ground (arith, from_list-to_list xs)
  as_array_of null arr h = cc
  as_array_of (bool b) arr h = cc
  as_array_of (num n) arr h = cc
  as_array_of (literal t) arr h = cc
  as_array_of (str t) arr h = cc
  as_array_of (object fs) arr h = cc

  kept_none : (n : ℕ) → 0 + (n - n) ≡ 0
  kept_none n = omega arith

  kept-Foreign : (fs : Entries) → Foreign fs → uninstall_events dispatch fs ≡ some (fs, 0)
  unfolding uninstall_events uninstall_event keep_event
  kept-Foreign end f = refl
  kept-Foreign (entry event v fs) ((e, es, a, o), f) =
      rw
        (
          a,
          kept-Foreign fs f,
          retain-eq_of_all (λ x. not (entry_matches_dispatch dispatch x)) (e ∷ es) o,
        )
        (ap some
          (λ i. (entry event (sym (as_array_of v (e ∷ es) a) i) fs, kept_none (length (e ∷ es)) i)))

  as_object_of : (v : Value) (hooks : Entries) → as_object v ≡ some hooks → v ≡ object hooks
  as_object_of (object fs) hooks h = cc
  as_object_of null hooks h = cc
  as_object_of (bool b) hooks h = cc
  as_object_of (num n) hooks h = cc
  as_object_of (literal t) hooks h = cc
  as_object_of (str t) hooks h = cc
  as_object_of (array xs) hooks h = cc

  found_object :
      (fs hooks : Entries)
      → get_object (object fs) ≡ some hooks
      → lookup "hooks" fs ≡ some (object hooks)
  unfolding get
  found_object fs hooks h = elim (Option-cases (lookup "hooks" fs)) [
    | inl missing ↦ absurd (ground arith)
    | inr (v, e) ↦ e ∙ ap some (as_object_of v hooks (rw e at h))
  ]

  found_before :
      (fs hooks before : Entries)
      → lookup "hooks" fs ≡ some (object hooks)
      → (lookup "hooks" (or_insert "hooks" (object end) fs) >>= as_object) ≡ some before
      → before ≡ hooks
  found_before fs hooks before here h =
      let h' : (lookup "hooks" fs >>= as_object) ≡ some before =
        rw (or_insert_same "hooks" (object end) (object hooks) fs here) at h in
      ground arith

  modify-modify :
      (k : String) (w v : Value) (fs : Entries)
      → modify k (λ _. w) (modify k (λ _. v) fs) ≡ modify k (λ _. w) fs
  unfolding modify
  modify-modify k w v end = refl
  modify-modify k w v (entry j u fs) = ground (arith, modify-modify k w v fs)

  hooked_same :
      (fs hooks hooks' : Entries)
      → lookup "hooks" fs ≡ some (object hooks)
      → hooked fs hooks' ≡ modify "hooks" (λ _. object hooks') fs
  unfolding hooked
  hooked_same fs hooks hooks' here =
      ap (modify "hooks" (λ _. object hooks'))
        (or_insert_same "hooks" (object end) (object hooks) fs here)

  put_back :
      (fs hooks hooks' : Entries)
      → lookup "hooks" fs ≡ some (object hooks)
      → modify "hooks" (λ _. object hooks) (hooked fs hooks') ≡ fs
  put_back fs hooks hooks' here =
      ap (modify "hooks" (λ _. object hooks)) (hooked_same fs hooks hooks' here)
      ∙ modify-modify "hooks" (object hooks) (object hooks') fs
      ∙ modify_same "hooks" (λ _. object hooks) fs (λ w e. ground arith)

  count_added :
      (n : ℕ) (hooks : Entries) (o : Option (Entries × ℕ))
      → o ≡ some (hooks, 0)
      → more n o ≡ some (hooks, n)
  count_added n hooks o h = rw h (ap (λ k. some (hooks, k)) (omega arith))

  uninstall_found :
      (fs hooks hooks' : Entries) (n : ℕ)
      → lookup "hooks" fs ≡ some (object hooks)
      → uninstall_events dispatch hooks ≡ some (hooks', n)
      → uninstall dispatch (object fs) ≡ some (object (modify "hooks" (λ _. object hooks') fs), n)
  unfolding uninstall
  uninstall_found fs hooks hooks' n h u = ground arith

  not_hooked : (s : Value) (hooks : Entries) → get_object s ≡ some hooks → is_object s ≢ false
  unfolding get
  not_hooked (object fs) hooks g = λ e. cc
  not_hooked null hooks g = cc
  not_hooked (bool b) hooks g = cc
  not_hooked (num n) hooks g = cc
  not_hooked (literal t) hooks g = cc
  not_hooked (str t) hooks g = cc
  not_hooked (array xs) hooks g = cc

  -- Where the settings hold an object of hooks, in which each event has an array of entries, one at
  -- least and none of which runs the script, to install and then to uninstall gives the settings
  -- back as they were, and takes out exactly the entries that were added.
  pub uninstall-install :
      (s s' : Value) (hooks : Entries) (added : List String)
      → get_object s ≡ some hooks
      → Foreign hooks
      → install dispatch s ≡ ok (s', added)
      → uninstall dispatch s' ≡ some (s, length added)
  uninstall-install (object fs) s' hooks added g f h =
      let t = installed dispatch fs s' added h in
      let here = found_object fs hooks g in
      let same : t.before ≡ hooks = found_before fs hooks t.before here t.found in
      let u : uninstall_events dispatch t.after ≡ some (hooks, length added) =
        uninstall-add_events dispatch events t.before t.after added t.run
        ∙ count_added (length added) hooks (uninstall_events dispatch t.before)
            (ap (uninstall_events dispatch) same ∙ kept-Foreign hooks f) in
      rw t.result (
        uninstall_found (hooked fs t.after) t.after hooks (length added)
          (lookup-hooked fs t.after t.before t.found) u
        ∙ ap (λ l. some (object l, length added)) (put_back fs hooks t.after here))
  uninstall-install null s' hooks added g f h = absurd (not_hooked null hooks g refl)
  uninstall-install (bool b) s' hooks added g f h = absurd (not_hooked (bool b) hooks g refl)
  uninstall-install (num n) s' hooks added g f h = absurd (not_hooked (num n) hooks g refl)
  uninstall-install (literal t) s' hooks added g f h = absurd (not_hooked (literal t) hooks g refl)
  uninstall-install (str t) s' hooks added g f h = absurd (not_hooked (str t) hooks g refl)
  uninstall-install (array xs) s' hooks added g f h = absurd (not_hooked (array xs) hooks g refl)
