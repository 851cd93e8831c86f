-- ===== src/Rebuild/Apply/Elide.antt =====
-- The budget of a synthesized text in src/rebuild.rs.
use ostk_cache.Prelude.{
  ℕ, zero, suc, ◌+◌, ◌≤◌, ◌<◌, ◌≡◌, ◌⊎◌, inl, inr, refl, ◌∙◌, sym, subst, true, false, Option, none,
  some, Text, arith, leb, length, Bool-cases, Option-cases,
}
use ostk_cache.Size.{Printer}
use ostk_cache.Rebuild.Apply.{Sections, Projection, elide_one, elide, fit}

-- The projection with none of the sections.
abbrev pub bare : Sections
bare = record { templates = none; tail = none; digests = none }

abbrev here : Option Text → ℕ
here none = 0
here (some t) = 1

abbrev present : Sections → ℕ
present s = here s.templates + here s.tail + here s.digests

elide_one-present : (s s' : Sections) → elide_one s ≡ some s' → suc (present s') ≡ present s
unfolding elide_one
elide_one-present s s' h = elim (Option-cases s.templates) [
  | inr (t, e) ↦ ground arith
  | inl e ↦ elim (Option-cases s.tail) [
    | inr (t, f) ↦ ground arith
    | inl f ↦ elim (Option-cases s.digests) [
      | inr (t, g) ↦ ground arith
      | inl g ↦ absurd (ground arith)
    ]
  ]
]

-- A section that is left is the one that was there.
abbrev pub IsNoneOr : Option Text → Option Text → Type 0
IsNoneOr o left = (left ≡ none) ⊎ (left ≡ o)

IsNoneOr-trans : (a b c : Option Text) → IsNoneOr a b → IsNoneOr b c → IsNoneOr a c
IsNoneOr-trans a b c h (inl k) = inl k
IsNoneOr-trans a b c (inl h) (inr k) = inl (k ∙ h)
IsNoneOr-trans a b c (inr h) (inr k) = inr (k ∙ h)

elide_one-IsNoneOr :
    (s s' : Sections)
    → elide_one s ≡ some s'
    → IsNoneOr s.templates s'.templates × IsNoneOr s.tail s'.tail × IsNoneOr s.digests s'.digests
unfolding elide_one
elide_one-IsNoneOr s s' h = elim (Option-cases s.templates) [
  | inr (t, e) ↦ (inl (ground arith), inr (ground arith), inr (ground arith))
  | inl e ↦ elim (Option-cases s.tail) [
    | inr (t, f) ↦ (inr (ground arith), inl (ground arith), inr (ground arith))
    | inl f ↦ elim (Option-cases s.digests) [
      | inr (t, g) ↦ (inr (ground arith), inr (ground arith), inl (ground arith))
      | inl g ↦ absurd (ground arith)
    ]
  ]
]

elide_one-bare : (s : Sections) → elide_one s ≡ none → s ≡ bare
unfolding elide_one
elide_one-bare s h = elim (Option-cases s.templates) [
  | inr (t, e) ↦ absurd (ground arith)
  | inl e ↦ elim (Option-cases s.tail) [
    | inr (t, f) ↦ absurd (ground arith)
    | inl f ↦ elim (Option-cases s.digests) [
      | inr (t, g) ↦ absurd (ground arith)
      | inl g ↦ λ i. record { templates = e i; tail = f i; digests = g i }
    ]
  ]
]

present_bound : (s : Sections) → present s < 4
present_bound s = ground arith

module _ (out : Printer) (P : Projection) where
  open P use {Core, compose}

  elide-fits :
      (fuel budget : ℕ) (core : Core) (s : Sections) (n : ℕ)
      → leb (length (compose core s)) budget ≡ true
      → elide out P (suc fuel) budget core s n ≡ (compose core s, n)
  unfolding elide
  elide-fits fuel budget core s n h = ground arith

  elide-ends :
      (fuel budget : ℕ) (core : Core) (s : Sections) (n : ℕ)
      → leb (length (compose core s)) budget ≡ false
      → elide_one s ≡ none
      → elide out P (suc fuel) budget core s n ≡ (compose core s, n)
  unfolding elide
  elide-ends fuel budget core s n h e = ground arith

  elide-goes :
      (fuel budget : ℕ) (core : Core) (s s' : Sections) (n : ℕ)
      → leb (length (compose core s)) budget ≡ false
      → elide_one s ≡ some s'
      → elide out P (suc fuel) budget core s n ≡ elide out P fuel budget core s' (n + 1)
  unfolding elide
  elide-goes fuel budget core s s' n h e = ground arith

  -- What an elision comes to: the text with the sections that are left, which are those that were
  -- there or none, the sections left out counted, and either the text within the budget or no section
  -- left.
  pub record Fits (budget : ℕ) (core : Core) (s : Sections) (text : Text) (count : ℕ) : Type 0 where
    pub left : Sections
    pub composed : text ≡ compose core left
    pub templates : IsNoneOr s.templates left.templates
    pub tail : IsNoneOr s.tail left.tail
    pub digests : IsNoneOr s.digests left.digests
    pub counted : count + present left ≡ present s
    pub ends : (length text ≤ budget) ⊎ (left ≡ bare)

  whole :
      (budget : ℕ) (core : Core) (s : Sections)
      → (length (compose core s) ≤ budget) ⊎ (s ≡ bare)
      → Fits budget core s (compose core s) 0
  whole budget core s h = record {
    left = s;
    composed = refl;
    templates = inr refl;
    tail = inr refl;
    digests = inr refl;
    counted = omega arith;
    ends = h;
  }

  widened :
      (budget : ℕ) (core : Core) (s s' : Sections) (text : Text) (c : ℕ)
      → elide_one s ≡ some s'
      → Fits budget core s' text c
      → Fits budget core s text (suc c)
  widened budget core s s' text c e r =
      let k = elide_one-present s s' e in
      let g = elide_one-IsNoneOr s s' e in
      record {
        left = r.left;
        composed = r.composed;
        templates = IsNoneOr-trans s.templates s'.templates r.left.templates g.0 r.templates;
        tail = IsNoneOr-trans s.tail s'.tail r.left.tail g.1 r.tail;
        digests = IsNoneOr-trans s.digests s'.digests r.left.digests g.2 r.digests;
        counted = omega (arith, r.counted, k);
        ends = r.ends;
      }

  elide-Fits :
      (fuel budget : ℕ) (core : Core) (s : Sections) (n : ℕ)
      → present s < fuel
      → (c : ℕ) × ((elide out P fuel budget core s n).1 ≡ n + c)
        × Fits budget core s (elide out P fuel budget core s n).0 c
  elide-Fits zero budget core s n h = absurd (omega (arith, h))
  elide-Fits (suc fuel) budget core s n h =
      let At : Text × ℕ → Type 0 = λ x. (c : ℕ) × (x.1 ≡ n + c) × Fits budget core s x.0 c in
      elim (Bool-cases (leb (length (compose core s)) budget)) [
        | inl e ↦
            subst At (sym (elide-fits fuel budget core s n e))
              (0, omega arith, whole budget core s (inl (ground arith)))
        | inr e ↦ elim (Option-cases (elide_one s)) [
          | inl f ↦
              subst At (sym (elide-ends fuel budget core s n e f))
                (0, omega arith, whole budget core s (inr (elide_one-bare s f)))
          | inr (s', f) ↦
              let k = elide_one-present s s' f in
              let r = elide-Fits fuel budget core s' (n + 1) (omega (arith, k, h)) in
              subst At (sym (elide-goes fuel budget core s s' n e f))
                (suc r.0, omega (arith, r.1), widened budget core s s' _ r.0 f r.2)
        ]
      ]

  -- With a budget, a composed text is that of the sections that are left, each as it was or gone, and
  -- as many as are gone of those that were there are counted as left out; it is within the budget, or
  -- no optional section is left.
  pub fit_budget :
      (budget : ℕ) (core : Core) (s : Sections)
      → Fits budget core s (fit out P (some budget) core s).0 (fit out P (some budget) core s).1
  unfolding fit
  fit_budget budget core s =
      let r = elide-Fits 4 budget core s 0 (present_bound s) in
      subst (Fits budget core s (elide out P 4 budget core s 0).0) (omega (arith, r.1)) r.2
