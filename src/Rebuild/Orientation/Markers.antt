-- ===== src/Rebuild/Orientation/Markers.antt =====
-- The one-hour markers of a request in src/rebuild.rs, and the `ttl` clamped to them.
use text.Mathlib.TextEquality.{eq_iff}
use ostk_cache.Prelude.{
  ◌≡◌, ◌↔◌, ◌⊎◌, inl, inr, sym, ◌∙◌, true, false, some, String, codes, eqb_iff, arith, Bool-cases,
  Option-cases,
}
use ostk_cache.Json.{
  Value, null, bool, num, literal, str, array, object, Elements, nil, cons, Entries, end, entry,
  lookup, get, get_str, has_str,
}
use ostk_cache.Rebuild.Orientation.{
  ttl_is_1h, value_has_1h_marker, items_have_1h, fields_have_1h, messages_have_1h,
  clamp_ttl_to_harness_floor,
}

-- Some object in the value has a `cache_control` whose `ttl` is the text `1h`.
mutual
  pub data Marked : Value → Type 0 where
    here :
        (fs : Entries) (c : Value)
        → lookup "cache_control" fs ≡ some c
        → get_str "ttl" c ≡ some (codes "1h")
        → Marked (object fs)
    under_key : (fs : Entries) → MarkedFields fs → Marked (object fs)
    element : (xs : Elements) → MarkedItems xs → Marked (array xs)

  pub data MarkedItems : Elements → Type 0 where
    first_item : (x : Value) (xs : Elements) → Marked x → MarkedItems (cons x xs)
    later_item : (x : Value) (xs : Elements) → MarkedItems xs → MarkedItems (cons x xs)

  pub data MarkedFields : Entries → Type 0 where
    first_field : (k : String) (v : Value) (fs : Entries) → Marked v → MarkedFields (entry k v fs)
    later_field :
        (k : String) (v : Value) (fs : Entries) → MarkedFields fs → MarkedFields (entry k v fs)

is_1h : (c : Value) → has_str "ttl" "1h" c ≡ true → get_str "ttl" c ≡ some (codes "1h")
unfolding has_str
is_1h c h = elim (Option-cases (get_str "ttl" c)) [
  | inl e ↦ absurd (ground arith)
  | inr (t, e) ↦ ground (arith, eqb_iff t (codes "1h"))
]

is_1h_back : (c : Value) → get_str "ttl" c ≡ some (codes "1h") → has_str "ttl" "1h" c ≡ true
unfolding has_str
is_1h_back c h = ground (arith, eqb_iff (codes "1h") (codes "1h"))

mutual
  unfolding value_has_1h_marker ttl_is_1h

  marked : (v : Value) → value_has_1h_marker v ≡ true → Marked v
  marked (object fs) h = elim (Bool-cases (fields_have_1h fs)) [
    | inl e ↦ under_key fs (marked_fields fs e)
    | inr e ↦ elim (Option-cases (lookup "cache_control" fs)) [
      | inl n ↦ absurd (ground arith)
      | inr (c, n) ↦ here fs c n (is_1h c (ground arith))
    ]
  ]
  marked (array xs) h = element xs (marked_items xs h)
  marked null h = absurd (ground arith)
  marked (bool b) h = absurd (ground arith)
  marked (num n) h = absurd (ground arith)
  marked (literal t) h = absurd (ground arith)
  marked (str s) h = absurd (ground arith)

  marked_items : (xs : Elements) → items_have_1h xs ≡ true → MarkedItems xs
  marked_items nil h = absurd (ground arith)
  marked_items (cons x xs) h = elim (Bool-cases (value_has_1h_marker x)) [
    | inl e ↦ first_item x xs (marked x e)
    | inr e ↦ later_item x xs (marked_items xs (ground arith))
  ]

  marked_fields : (fs : Entries) → fields_have_1h fs ≡ true → MarkedFields fs
  marked_fields end h = absurd (ground arith)
  marked_fields (entry k v fs) h = elim (Bool-cases (value_has_1h_marker v)) [
    | inl e ↦ first_field k v fs (marked v e)
    | inr e ↦ later_field k v fs (marked_fields fs (ground arith))
  ]

mutual
  unfolding value_has_1h_marker ttl_is_1h

  found : (v : Value) → Marked v → value_has_1h_marker v ≡ true
  found _ (here fs c e h) = ground (arith, is_1h_back c h)
  found _ (under_key fs h) = ground (arith, found_fields fs h)
  found _ (element xs h) = found_items xs h

  found_items : (xs : Elements) → MarkedItems xs → items_have_1h xs ≡ true
  found_items _ (first_item x xs h) = ground (arith, found x h)
  found_items _ (later_item x xs h) = ground (arith, found_items xs h)

  found_fields : (fs : Entries) → MarkedFields fs → fields_have_1h fs ≡ true
  found_fields _ (first_field k v fs h) = ground (arith, found v h)
  found_fields _ (later_field k v fs h) = ground (arith, found_fields fs h)

-- The messages of a request hold such a marker.
abbrev pub MessagesMarked : Value → Type 0
MessagesMarked req = (m : Value) × (get "messages" req ≡ some m) × Marked m

MessagesMarked-iff : (req : Value) → (messages_have_1h req ≡ true) ↔ MessagesMarked req
unfolding messages_have_1h
MessagesMarked-iff req = (
  λ h. elim (Option-cases (get "messages" req)) [
    | inl e ↦ absurd (ground arith)
    | inr (m, e) ↦ (m, e, marked m (ground arith))
  ],
  λ k. ground (arith, found k.0 k.2, k.1),
)

clamp_marked :
    (req : Value) (ttl : String)
    → messages_have_1h req ≡ true
    → clamp_ttl_to_harness_floor req ttl ≡ "1h"
unfolding clamp_ttl_to_harness_floor
clamp_marked req ttl h = ground (arith, eq_iff ttl "1h")

clamp_plain :
    (req : Value) (ttl : String)
    → messages_have_1h req ≡ false
    → clamp_ttl_to_harness_floor req ttl ≡ ttl
unfolding clamp_ttl_to_harness_floor
clamp_plain req ttl h = ground arith

-- The clamped `ttl` is the one that came in, or one hour; and it is one hour exactly when one hour
-- came in or the request's messages hold a one-hour marker.
pub clamp_iff :
    (req : Value) (ttl : String)
    → ((clamp_ttl_to_harness_floor req ttl ≡ ttl) ⊎ (clamp_ttl_to_harness_floor req ttl ≡ "1h"))
      × ((clamp_ttl_to_harness_floor req ttl ≡ "1h") ↔ ((ttl ≡ "1h") ⊎ MessagesMarked req))
clamp_iff req ttl =
    let i = MessagesMarked-iff req in
    elim (Bool-cases (messages_have_1h req)) [
      | inl e ↦ let c = clamp_marked req ttl e in (inr c, ((λ h. inr (i.0 e)), (λ h. c)))
      | inr e ↦
          let c = clamp_plain req ttl e in
          (
            inl c,
            (
              (λ h. inl (sym c ∙ h)),
              λ k. elim k [ inl q ↦ c ∙ q | inr m ↦ absurd (ground (arith, i.1 m)) ],
            ),
          )
    ]
