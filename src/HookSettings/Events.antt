-- ===== src/HookSettings/Events.antt =====
-- The rounds of `install`, and what a successful install is made of.
use ostk_cache.Prelude.{
  ◌≡◌, refl, Bool, true, List, [], ◌∷◌, Option, some, String, Text, arith, All, if◌then◌else◌,
  ◌>>=◌, Option-cases, inl, inr, ◌⊎◌,
}
use ostk_cache.Json.{Value, object, Entries, end, lookup, modify, get}
use ostk_cache.HookSettings.{
  SettingsError, Result, ok, err, events, or_insert, add_event, add_events, as_object, install,
}
use ostk_cache.HookSettings.Round.{is_registered, lookup-modify_self}

pub Result-cases {ℓ} :
    {A : Type ℓ} (r : Result A) → ((a : A) × (r ≡ ok a)) ⊎ ((e : SettingsError) × (r ≡ err e))
Result-cases (ok a) = inl (a, refl)
Result-cases (err e) = inr (e, refl)

-- Every event of a list is registered.
abbrev pub AllRegistered : Text → List (String × Bool) → Entries → Type 0
AllRegistered dispatch es hooks = All (λ e. is_registered dispatch e.0 hooks ≡ true) es

pub no_rounds :
    (dispatch : Text) (hooks hooks' : Entries) (added : List String)
    → add_events dispatch [] hooks ≡ ok (hooks', added)
    → hooks ≡ hooks'
unfolding add_events
no_rounds dispatch hooks hooks' added h = ground arith

-- `value["hooks"]` where it is an object.
abbrev pub get_object : Value → Option Entries
get_object v = get "hooks" v >>= as_object

-- A loop that succeeds does so in its first round and in the others.
pub record Rounds (dispatch : Text) (event : String) (m : Bool) (es : List (String × Bool))
    (hooks hooks' : Entries) (added : List String) : Type 0 where
  pub between : Entries
  pub first : Bool
  pub rest : List String
  pub one : add_event dispatch event m hooks ≡ ok (between, first)
  pub others : add_events dispatch es between ≡ ok (hooks', rest)
  pub names : added ≡ (if first then event ∷ rest else rest)

pub rounds :
    (dispatch : Text) (event : String) (m : Bool) (es : List (String × Bool))
    (hooks hooks' : Entries) (added : List String)
    → add_events dispatch ((event, m) ∷ es) hooks ≡ ok (hooks', added)
    → Rounds dispatch event m es hooks hooks' added
unfolding add_events
rounds dispatch event m es hooks hooks' added h =
    elim (Result-cases (add_event dispatch event m hooks)) [
      | inr (e, bad) ↦ absurd (ground arith)
      | inl ((between, first), one) ↦ elim (Result-cases (add_events dispatch es between)) [
        | inr (e, bad) ↦ absurd (ground arith)
        | inl ((last, rest), others) ↦ record {
          between = between;
          first = first;
          rest = rest;
          one = one;
          others = ground arith;
          names = ground arith;
        }
      ]
    ]

-- The settings with the hooks put in place.
unfoldable pub hooked : Entries → Entries → Entries
hooked fs hooks = modify "hooks" (λ _. object hooks) (or_insert "hooks" (object end) fs)

pub record Installed (dispatch : Text) (fs : Entries) (s' : Value) (added : List String)
    : Type 0 where
  pub before : Entries
  pub after : Entries
  pub found : (lookup "hooks" (or_insert "hooks" (object end) fs) >>= as_object) ≡ some before
  pub run : add_events dispatch events before ≡ ok (after, added)
  pub result : s' ≡ object (hooked fs after)

pub installed :
    (dispatch : Text) (fs : Entries) (s' : Value) (added : List String)
    → install dispatch (object fs) ≡ ok (s', added)
    → Installed dispatch fs s' added
unfolding install hooked
installed dispatch fs s' added h =
    elim (Option-cases (lookup "hooks" (or_insert "hooks" (object end) fs) >>= as_object)) [
      | inl missing ↦ absurd (ground arith)
      | inr (before, found) ↦ elim (Result-cases (add_events dispatch events before)) [
        | inr (e, bad) ↦ absurd (ground arith)
        | inl ((after, names), run) ↦ record {
          before = before;
          after = after;
          found = found;
          run = ground arith;
          result = ground arith;
        }
      ]
    ]

pub lookup-hooked :
    (fs hooks before : Entries)
    → (lookup "hooks" (or_insert "hooks" (object end) fs) >>= as_object) ≡ some before
    → lookup "hooks" (hooked fs hooks) ≡ some (object hooks)
unfolding hooked
lookup-hooked fs hooks before h =
    elim (Option-cases (lookup "hooks" (or_insert "hooks" (object end) fs))) [
      | inl missing ↦ absurd (ground arith)
      | inr (v, e) ↦
          lookup-modify_self "hooks" (object hooks) v (or_insert "hooks" (object end) fs) e
    ]
