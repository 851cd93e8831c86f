-- ===== src/HookSettings/Tests.antt =====
-- Runs of `install` and `uninstall` on small settings.
use ostk_cache.Prelude.{◌≡◌, refl, List, [], ◌∷◌, some, String, Text, codes, starts_with, any, all}
use ostk_cache.Json.{
  Value, str, array, object, nil, cons, Entries, end, entry, lookup, insert, modify, get, get_array,
  get_str,
}
use ostk_cache.HookSettings.{
  ok, events, command_hook, entry_matches_dispatch, or_insert, new_entry, push_entry, add_event,
  add_events, install, uninstall,
}
use ostk_cache.HookSettings.Events.{get_object, AllRegistered}
use ostk_cache.HookSettings.Idempotent.{install_idem}
use ostk_cache.HookSettings.RoundTrip.{Foreign, uninstall-install}

abbrev dispatch : Text
dispatch = codes "/d.sh"

-- Another tool's hook on `Stop`.
abbrev other : Value
other = object (entry "hooks" (array (cons (command_hook (codes "say done")) nil)) end)

abbrev hooks : Entries
hooks = entry "Stop" (array (cons other nil)) end

abbrev settings : Value
settings = object (entry "hooks" (object hooks) (entry "model" (str (codes "m")) end))

abbrev hook : Text → Value
hook cmd = object (entry "hooks" (array (cons (command_hook cmd) nil)) end)

abbrev matched : Text → Value
matched cmd =
    object
      (entry "hooks" (array (cons (command_hook cmd) nil)) (entry "matcher" (str (codes ".*")) end))

abbrev installed_settings : Value
installed_settings = object (
    entry "hooks"
      (object (
        entry "PostToolUse" (array (cons (matched (codes "/d.sh PostToolUse")) nil)) (
          entry "PreToolUse" (array (cons (matched (codes "/d.sh PreToolUse")) nil)) (
            entry "SessionStart" (array (cons (hook (codes "/d.sh SessionStart")) nil)) (
              entry "Stop" (array (cons other (cons (hook (codes "/d.sh Stop")) nil))) (
                entry "UserPromptSubmit" (array (cons (hook (codes "/d.sh UserPromptSubmit")) nil))
                  end))))))
      (entry "model" (str (codes "m")) end))

abbrev names : List String
names = "SessionStart" ∷ "UserPromptSubmit" ∷ "PreToolUse" ∷ "PostToolUse" ∷ "Stop" ∷ []

installs : install dispatch settings ≡ ok (installed_settings, names)
unfolding install add_events add_event push_entry or_insert new_entry lookup insert modify
    entry_matches_dispatch get_array get_str get any starts_with
installs = refl

install_idem_example :
    ((h : Entries) × (get_object installed_settings ≡ some h) × AllRegistered dispatch events h)
    × (install dispatch installed_settings ≡ ok (installed_settings, []))
install_idem_example = install_idem dispatch settings installed_settings names installs

found : get_object settings ≡ some hooks
unfolding get lookup
found = refl

foreign : Foreign dispatch hooks
unfolding entry_matches_dispatch get_array get_str get lookup any all starts_with
foreign = ((other, [], refl, refl), tt)

uninstall-install_example : uninstall dispatch installed_settings ≡ some (settings, 5)
uninstall-install_example =
    uninstall-install dispatch settings installed_settings hooks names found foreign installs
