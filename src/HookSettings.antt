-- ===== src/HookSettings.antt =====
-- The hooks CLI, src/bin/hooks.rs: what `install` and `uninstall` make of the settings that they
-- have read and will write. `none` of `uninstall` is the panic of `unwrap`.
pub mod Round
pub mod Events
pub mod Idempotent
pub mod Removal
pub mod RoundTrip
mod Tests
use ostk_cache.Prelude.{
  ℕ, ◌+◌, ◌-◌, Bool, true, false, not, List, [], ◌∷◌, ◌++◌, Option, none, some, String, Text, codes,
  starts_with, any, retain, length, if◌then◌else◌, ◌>>=◌,
}
use ostk_cache.Json.{
  Value, null, bool, num, literal, str, array, object, nil, cons, Entries, end, entry, lookup,
  insert, modify, get_array, get_str, as_array, from_list,
}

pub data SettingsError : Type 0 where
  root_not_object hooks_not_object : SettingsError
  event_not_array : String → SettingsError

pub data Result {ℓ} (A : Type ℓ) : Type ℓ where
  ok : A → Result A
  err : SettingsError → Result A

-- The events, and whether an entry for one has a matcher.
abbrev pub events : List (String × Bool)
events =
    ("SessionStart", false)
    ∷ ("UserPromptSubmit", false)
    ∷ ("PreToolUse", true)
    ∷ ("PostToolUse", true)
    ∷ ("Stop", false)
    ∷ []

unfoldable pub command_matches : Text → Value → Bool
command_matches prefix h = elim (get_str "command" h) [
  | none ↦ false
  | some s ↦ starts_with prefix s
]

unfoldable pub entry_matches_dispatch : Text → Value → Bool
unfolding command_matches
entry_matches_dispatch prefix e = elim (get_array "hooks" e) [
  | none ↦ false
  | some hs ↦ any (command_matches prefix) hs
]

-- `entry(k).or_insert_with(…)`
unfoldable pub or_insert : String → Value → Entries → Entries
or_insert k w fs = elim (lookup k fs) [ none ↦ insert k w fs | some v ↦ fs ]

abbrev pub command_of : Text → String → Text
command_of dispatch event = dispatch ++ (b' ' ∷ codes event)

abbrev pub command_hook : Text → Value
command_hook cmd = object (entry "command" (str cmd) (entry "type" (str (codes "command")) end))

unfoldable pub new_entry : Bool → Text → Value
new_entry false cmd = object (entry "hooks" (array (cons (command_hook cmd) nil)) end)
new_entry true cmd =
    object
      (entry "hooks" (array (cons (command_hook cmd) nil)) (entry "matcher" (str (codes ".*")) end))

-- The entries of the event, where they are an array: one that runs the script is enough.
unfoldable pub push_entry :
    Text → String → Bool → Entries → Option (List Value) → Result (Entries × Bool)
unfolding new_entry
push_entry dispatch event has_matcher hooks none = err (event_not_array event)
push_entry dispatch event has_matcher hooks (some arr) =
    if any (entry_matches_dispatch dispatch) arr
    then ok (hooks, false)
    else ok (
      modify event
          (λ _. array (from_list (arr ++ new_entry has_matcher (command_of dispatch event) ∷ [])))
          hooks,
      true,
    )

-- One round of the loop: the hooks, and whether an entry was added.
unfoldable pub add_event : Text → String → Bool → Entries → Result (Entries × Bool)
unfolding or_insert push_entry
add_event dispatch event has_matcher hooks =
    let hooks' = or_insert event (array nil) hooks in
    push_entry dispatch event has_matcher hooks' (lookup event hooks' >>= as_array)

unfoldable pub add_events : Text → List (String × Bool) → Entries → Result (Entries × List String)
add_events dispatch [] hooks = ok (hooks, [])
add_events dispatch ((event, has_matcher) ∷ more) hooks =
    elim (add_event dispatch event has_matcher hooks) [
      | err e ↦ err e
      | ok (hooks', added) ↦ elim (add_events dispatch more hooks') [
        | err e ↦ err e
        | ok (hooks'', rest) ↦ ok (hooks'', if added then event ∷ rest else rest)
      ]
    ]

abbrev pub as_object : Value → Option Entries
as_object (object fs) = some fs
as_object _ = none

-- The settings written, and the events an entry was added to.
unfoldable pub install : Text → Value → Result (Value × List String)
unfolding or_insert add_events
install dispatch (object fs) =
    let fs' = or_insert "hooks" (object end) fs in
    elim (lookup "hooks" fs' >>= as_object) [
      | none ↦ err hooks_not_object
      | some hooks ↦ elim (add_events dispatch events hooks) [
        | err e ↦ err e
        | ok (hooks', added) ↦ ok (object (modify "hooks" (λ _. object hooks') fs'), added)
      ]
    ]
install dispatch _ = err root_not_object

-- An event whose last entry went goes too.
unfoldable pub keep_event : String → List Value → Entries → Entries
keep_event event [] fs = fs
keep_event event (e ∷ es) fs = entry event (array (from_list (e ∷ es))) fs

-- One round: `none` where the event's value is not an array, and how many entries went.
unfoldable pub uninstall_event :
    Text → String → Option (List Value) → Option (Entries × ℕ) → Option (Entries × ℕ)
unfolding keep_event
uninstall_event dispatch event none rest = none
uninstall_event dispatch event (some arr) none = none
uninstall_event dispatch event (some arr) (some (fs, removed)) =
    let kept = retain (λ e. not (entry_matches_dispatch dispatch e)) arr in
    some (keep_event event kept fs, removed + (length arr - length kept))

-- The loop over the events of the file.
unfoldable pub uninstall_events : Text → Entries → Option (Entries × ℕ)
unfolding uninstall_event
uninstall_events dispatch end = some (end, 0)
uninstall_events dispatch (entry event v fs) =
    uninstall_event dispatch event (as_array v) (uninstall_events dispatch fs)

unfoldable pub uninstall : Text → Value → Option (Value × ℕ)
unfolding uninstall_events
uninstall dispatch (object fs) = elim (lookup "hooks" fs >>= as_object) [
  | none ↦ some (object fs, 0)
  | some hooks ↦ elim (uninstall_events dispatch hooks) [
    | none ↦ none
    | some (hooks', removed) ↦ some (object (modify "hooks" (λ _. object hooks') fs), removed)
  ]
]
uninstall dispatch v = some (v, 0)
