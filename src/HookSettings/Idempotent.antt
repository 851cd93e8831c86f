-- ===== src/HookSettings/Idempotent.antt =====
-- A second `install` finds every event registered.
use ostk_cache.Prelude.{◌≡◌, refl, ap, sym, Bool, true, List, [], ◌∷◌, some, String, Text, arith}
use ostk_cache.Json.{Value, null, bool, num, literal, str, array, object, Entries, end, lookup, get}
use ostk_cache.Json.Laws.{modify_same}
use ostk_cache.HookSettings.{ok, events, add_events, install}
use ostk_cache.HookSettings.Round.{
  is_registered, or_insert_same, same_registered, add_registered, add_event-registers,
  add_event_other,
}
use ostk_cache.HookSettings.Events.{
  AllRegistered, no_rounds, get_object, rounds, hooked, installed, lookup-hooked,
}

add_events_keeps :
    (dispatch : Text) (es : List (String × Bool)) (other : String) (hooks hooks' : Entries)
    (added : List String)
    → add_events dispatch es hooks ≡ ok (hooks', added)
    → is_registered dispatch other hooks ≡ true
    → is_registered dispatch other hooks' ≡ true
add_events_keeps dispatch [] other hooks hooks' added h r =
    same_registered dispatch other hooks hooks'
      (ap (lookup other) (sym (no_rounds dispatch hooks hooks' added h))) r
add_events_keeps dispatch ((event, m) ∷ es) other hooks hooks' added h r =
    let s = rounds dispatch event m es hooks hooks' added h in
    add_events_keeps dispatch es other s.between hooks' s.rest s.others
      (add_event_other dispatch event other m hooks s.between s.first s.one r)

pub add_events-AllRegistered :
    (dispatch : Text) (es : List (String × Bool)) (hooks hooks' : Entries) (added : List String)
    → add_events dispatch es hooks ≡ ok (hooks', added)
    → AllRegistered dispatch es hooks'
add_events-AllRegistered dispatch [] hooks hooks' added h = tt
add_events-AllRegistered dispatch ((event, m) ∷ es) hooks hooks' added h =
    let s = rounds dispatch event m es hooks hooks' added h in
    (
      add_events_keeps dispatch es event s.between hooks' s.rest s.others
          (add_event-registers dispatch event m hooks s.between s.first s.one),
      add_events-AllRegistered dispatch es s.between hooks' s.rest s.others,
    )

-- With every event registered the loop changes nothing.
add_events_registered :
    (dispatch : Text) (es : List (String × Bool)) (hooks : Entries)
    → AllRegistered dispatch es hooks
    → add_events dispatch es hooks ≡ ok (hooks, [])
unfolding add_events
add_events_registered dispatch [] hooks r = refl
add_events_registered dispatch ((event, m) ∷ es) hooks r =
    ground (
      arith,
      add_registered dispatch event m hooks r.0,
      add_events_registered dispatch es hooks r.1,
    )

install_again :
    (dispatch : Text) (fs hooks : Entries)
    → lookup "hooks" fs ≡ some (object hooks)
    → add_events dispatch events hooks ≡ ok (hooks, [])
    → install dispatch (object fs) ≡ ok (object fs, [])
unfolding install
install_again dispatch fs hooks found run = ground (
  arith,
  or_insert_same "hooks" (object end) (object hooks) fs found,
  modify_same "hooks" (λ _. object hooks) fs (λ w e. ground arith),
)

-- An install that succeeds leaves settings that hold an object of hooks, in which each of the five
-- events has an entry that runs the script; and another install leaves them as they are and adds
-- nothing.
pub install_idem :
    (dispatch : Text) (s s' : Value) (added : List String)
    → install dispatch s ≡ ok (s', added)
    → ((hooks : Entries) × (get_object s' ≡ some hooks) × AllRegistered dispatch events hooks)
      × (install dispatch s' ≡ ok (s', []))
unfolding install get
install_idem dispatch (object fs) s' added h =
    let t = installed dispatch fs s' added h in
    let found : lookup "hooks" (hooked fs t.after) ≡ some (object t.after) =
      lookup-hooked fs t.after t.before t.found in
    rw t.result (
      (
        t.after,
        rw found refl,
        add_events-AllRegistered dispatch events t.before t.after added t.run,
      ),
      install_again dispatch (hooked fs t.after) t.after found (
          add_events_registered dispatch events t.after
            (add_events-AllRegistered dispatch events t.before t.after added t.run)),
    )
install_idem dispatch null s' added h = cc
install_idem dispatch (bool b) s' added h = cc
install_idem dispatch (num n) s' added h = cc
install_idem dispatch (literal t) s' added h = cc
install_idem dispatch (str t) s' added h = cc
install_idem dispatch (array xs) s' added h = cc
