-- ===== src/ReminderStrip/Find.antt =====
-- `str::find`: the first occurrence, or none at all.
use ostk_cache.Prelude.{
  ℕ, ◌≤◌, ◌≡◌, ◌≢◌, refl, ap, true, false, List, [], ◌∷◌, ◌++◌, none, some, Text, starts_with,
  starts_with_append, starts_with_split, arith, length, drop, Bool-cases, Option-cases, inl, inr,
  ◌⊎◌,
}
use ostk_cache.ReminderStrip.{find}

-- Two ways to split a text: the longer left part begins with the shorter one.
pub append_split {ℓ} :
    {A : Type ℓ} (x y u v : List A)
    → x ++ y ≡ u ++ v
    → length x ≤ length u
    → (w : List A) × (y ≡ w ++ v) × (u ≡ x ++ w)
append_split [] y u v e h = (u, e, refl)
append_split (a ∷ x) y [] v e h = absurd (omega arith)
append_split (a ∷ x) y (b ∷ u) v e h =
    let r = append_split x y u v (cc) (omega arith) in (r.0, r.1, cc (r.2))

find_cons :
    (needle : Text) (c : ℕ) (cs before after : Text)
    → find needle (c ∷ cs) ≡ some (before, after)
    → ((starts_with needle (c ∷ cs) ≡ true)
        × (before ≡ [])
        × (after ≡ drop (length needle) (c ∷ cs)))
      ⊎ ((tail : Text) × (starts_with needle (c ∷ cs) ≡ false)
          × (find needle cs ≡ some (tail, after))
          × (before ≡ c ∷ tail))
unfolding find
find_cons needle c cs before after e = elim (Bool-cases (starts_with needle (c ∷ cs))) [
  | inl h ↦ inl (h, ground arith, ground arith)
  | inr h ↦ elim (Option-cases (find needle cs)) [
    | inl z ↦ absurd (ground arith)
    | inr (r, z) ↦ inr (r.0, h, ground arith, ground arith)
  ]
]

-- What is found is an occurrence.
pub find_sound :
    (needle s before after : Text)
    → find needle s ≡ some (before, after)
    → s ≡ before ++ (needle ++ after)
find_sound needle [] before after e = unfold find in cc
find_sound needle (c ∷ cs) before after e = elim (find_cons needle c cs before after e) [
  | inl (h, b, a) ↦ rw (b, a) (starts_with_split needle (c ∷ cs) h)
  | inr (tail, h, z, b) ↦ rw b (ap (◌∷◌ c) (find_sound needle cs tail after z))
]

-- No occurrence starts before the one that is found.
pub find_first :
    (needle s before after a b : Text)
    → find needle s ≡ some (before, after)
    → s ≡ a ++ (needle ++ b)
    → length before ≤ length a
find_first needle [] before after a b e eq = unfold find in cc
find_first needle (c ∷ cs) before after [] b e eq = elim (find_cons needle c cs before after e) [
  | inl (h, x, y) ↦ rw x (omega arith)
  | inr (tail, h, z, x) ↦ cc (h, starts_with_append needle b)
]
find_first needle (c ∷ cs) before after (d ∷ a) b e eq =
    elim (find_cons needle c cs before after e) [
      | inl (h, x, y) ↦ rw x (omega arith)
      | inr (tail, h, z, x) ↦ rw x (omega (arith, find_first needle cs tail after a b z (cc)))
    ]

no_empty : (needle b : Text) → needle ≢ [] → [] ≢ needle ++ b
no_empty [] b n e = n refl
no_empty (c ∷ cs) b n e = cc

find-none_cons :
    (needle : Text) (c : ℕ) (cs : Text)
    → find needle (c ∷ cs) ≡ none
    → (starts_with needle (c ∷ cs) ≡ false) × (find needle cs ≡ none)
unfolding find
find-none_cons needle c cs e = ground arith

-- Where nothing is found there is no occurrence.
pub find-none : (needle s a b : Text) → needle ≢ [] → find needle s ≡ none → s ≢ a ++ (needle ++ b)
find-none needle [] [] b n e eq = no_empty needle b n eq
find-none needle [] (d ∷ a) b n e eq = cc
find-none needle (c ∷ cs) [] b n e eq =
    cc ((find-none_cons needle c cs e).0, starts_with_append needle b)
find-none needle (c ∷ cs) (d ∷ a) b n e eq =
    find-none needle cs a b n (find-none_cons needle c cs e).1 (cc)
