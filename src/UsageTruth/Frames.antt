-- ===== src/UsageTruth/Frames.antt =====
-- Where the events of a stream end, in src/usage_truth.rs: the end of the first event does not
-- depend on the bytes that follow it.
use ostk_cache.Prelude.{
  ℕ, suc, ◌≤◌, ◌<◌, ◌≡◌, refl, true, false, [], ◌∷◌, ◌++◌, Option, none, some, Text, arith,
  starts_with, length, Bool-cases, Option-cases, inl, inr, leb, leb→le,
}
use ostk_cache.UsageTruth.{past, lf_lf, crlf_crlf, find_double_newline}

starts_with-append : (w xs ys : Text) → starts_with w xs ≡ true → starts_with w (xs ++ ys) ≡ true
unfolding starts_with
starts_with-append [] xs ys h = refl
starts_with-append (c ∷ w) [] ys h = absurd (ground arith)
starts_with-append (c ∷ w) (x ∷ xs) ys h = ground (arith, starts_with-append w xs ys)

starts_with-length : (w xs : Text) → starts_with w xs ≡ true → length w ≤ length xs
unfolding starts_with
starts_with-length [] xs h = omega arith
starts_with-length (c ∷ w) [] h = absurd (ground arith)
starts_with-length (c ∷ w) (x ∷ xs) h = ground (arith, starts_with-length w xs)

-- With enough bytes the answer is in the part that is there.
starts_with-inside :
    (w xs ys : Text)
    → length w ≤ length xs
    → starts_with w (xs ++ ys) ≡ true
    → starts_with w xs ≡ true
unfolding starts_with
starts_with-inside [] xs ys l h = refl
starts_with-inside (c ∷ w) [] ys l h = absurd (omega (arith, l))
starts_with-inside (c ∷ w) (x ∷ xs) ys l h = ground (arith, starts_with-inside w xs ys)

past-here :
    (w : Text) (x : ℕ) (xs : Text)
    → starts_with w (x ∷ xs) ≡ true
    → past w (x ∷ xs) ≡ some (length w)
unfolding past
past-here w x xs h = rw h refl

abbrev next : Option ℕ → Option ℕ
next none = none
next (some p) = some (suc p)

past-later :
    (w : Text) (x : ℕ) (xs : Text)
    → starts_with w (x ∷ xs) ≡ false
    → past w (x ∷ xs) ≡ next (past w xs)
unfolding past
past-later w x xs h = ground arith

pub past_bound : (w xs : Text) (p : ℕ) → past w xs ≡ some p → (length w ≤ p) × (p ≤ length xs)
unfolding past
past_bound w [] p h = absurd (ground arith)
past_bound w (x ∷ xs) p h = elim (Bool-cases (starts_with w (x ∷ xs))) [
  | inl e ↦ ground (arith, starts_with-length w (x ∷ xs) e)
  | inr e ↦ elim (Option-cases (past w xs)) [
    | inl y ↦ absurd (ground arith)
    | inr (q, y) ↦ let b = past_bound w xs q y in ground arith
  ]
]

past_stable : (w xs ys : Text) (p : ℕ) → past w xs ≡ some p → past w (xs ++ ys) ≡ some p
unfolding past
past_stable w [] ys p h = absurd (ground arith)
past_stable w (x ∷ xs) ys p h = elim (Bool-cases (starts_with w (x ∷ xs))) [
  | inl e ↦ ground (arith, starts_with-append w (x ∷ xs) ys e)
  | inr e ↦ elim (Option-cases (past w xs)) [
    | inl y ↦ absurd (ground arith)
    | inr (q, y) ↦
        let k = past_stable w xs ys q y in
        let b = past_bound w xs q y in
        elim (Bool-cases (starts_with w (x ∷ (xs ++ ys)))) [
          | inl s ↦
              absurd (ground (arith, starts_with-inside w (x ∷ xs) ys (omega (arith, b.0, b.1)) s))
          | inr s ↦ ground arith
        ]
  ]
]

-- A window that is found only with the bytes that follow ends in them.
past_new :
    (w xs ys : Text) (p : ℕ)
    → 0 < length w
    → past w xs ≡ none
    → past w (xs ++ ys) ≡ some p
    → length xs < p
unfolding past
past_new w [] ys p n h k = let b = past_bound w ys p k in omega (arith, n, b.0)
past_new w (x ∷ xs) ys p n h k = elim (Bool-cases (starts_with w (x ∷ xs))) [
  | inl e ↦ absurd (ground arith)
  | inr e ↦ elim (Bool-cases (starts_with w (x ∷ (xs ++ ys)))) [
    | inl s ↦ elim (Bool-cases (leb (length w) (length (x ∷ xs)))) [
      | inl l ↦ absurd (
          ground
            (arith, starts_with-inside w (x ∷ xs) ys (leb→le (length w) (length (x ∷ xs)) l) s))
      | inr l ↦ ground arith
    ]
    | inr s ↦ elim (Option-cases (past w (xs ++ ys))) [
      | inl y ↦ absurd (ground arith)
      | inr (q, y) ↦ let i = past_new w xs ys q n (ground arith) y in ground arith
    ]
  ]
]

pub find_bound : (xs : Text) (p : ℕ) → find_double_newline xs ≡ some p → (0 < p) × (p ≤ length xs)
unfolding find_double_newline
find_bound xs p h = elim (Option-cases (past lf_lf xs)) [
  | inl e ↦ let b = past_bound crlf_crlf xs p (ground arith) in (omega (arith, b.0), b.1)
  | inr (a, e) ↦
      let b = past_bound lf_lf xs a e in
      elim (Option-cases (past crlf_crlf xs)) [
        | inl f ↦ ground arith
        | inr (c, f) ↦ let d = past_bound crlf_crlf xs c f in ground arith
      ]
]

pub find_stable :
    (xs ys : Text) (p : ℕ)
    → find_double_newline xs ≡ some p
    → find_double_newline (xs ++ ys) ≡ some p
unfolding find_double_newline
find_stable xs ys p h = elim (Option-cases (past lf_lf xs)) [
  | inl e ↦
      let c : past crlf_crlf xs ≡ some p = ground arith in
      let b = past_bound crlf_crlf xs p c in
      let k = past_stable crlf_crlf xs ys p c in
      elim (Option-cases (past lf_lf (xs ++ ys))) [
        | inl f ↦ ground arith
        | inr (a, f) ↦ let n = past_new lf_lf xs ys a (omega arith) e f in ground arith
      ]
  | inr (a, e) ↦
      let b = past_bound lf_lf xs a e in
      let k = past_stable lf_lf xs ys a e in
      elim (Option-cases (past crlf_crlf xs)) [
        | inr (c, f) ↦ let d = past_stable crlf_crlf xs ys c f in ground arith
        | inl f ↦ elim (Option-cases (past crlf_crlf (xs ++ ys))) [
          | inl g ↦ ground arith
          | inr (c, g) ↦ let n = past_new crlf_crlf xs ys c (omega arith) f g in ground arith
        ]
      ]
]
