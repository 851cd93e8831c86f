-- ===== src/TranscriptTail/Cut.antt =====
-- What is left of a text that is cut.
use ostk_cache.Prelude.{
  ℕ, zero, suc, ◌+◌, ◌≤◌, ◌<◌, ◌≡◌, refl, ap, sym, ◌∙◌, List, [], ◌∷◌, ◌++◌, Text, arith, leb,
  leb→le, leb→lt, length, take, length-append, length-take, Bool-cases, inl, inr,
}
use ostk_cache.Prelude.Chars.{
  is_continuation, chars, concat, chars-concat, chars-AreChars, take-AreChars, append-AreChars,
  concat-append,
}
use ostk_cache.TranscriptTail.{ellipsis, truncate_chars}

truncate_short : (s : Text) (max : ℕ) → length (chars s) ≤ max → truncate_chars s max ≡ s
unfolding truncate_chars
truncate_short s max h = ground arith

truncate_long :
    (s : Text) (max : ℕ)
    → max < length (chars s)
    → truncate_chars s max ≡ concat (take max (chars s)) ++ ellipsis
unfolding truncate_chars
truncate_long s max h = ground arith

-- The characters of a text that was cut.
cut_chars :
    (s : Text) (max : ℕ)
    → chars (concat (take max (chars s)) ++ ellipsis) ≡ take max (chars s) ++ ellipsis ∷ []
unfolding concat is_continuation
cut_chars s max =
    ap chars (sym (concat-append (take max (chars s)) (ellipsis ∷ [])))
    ∙ chars-concat (take max (chars s) ++ ellipsis ∷ []) (
        append-AreChars (take max (chars s)) (ellipsis ∷ [])
          (take-AreChars max (chars s) (chars-AreChars s)) (refl, (refl, (refl, tt)), tt))

take-take-append :
    (n : ℕ) (gs : List Text) (h : Text) → n ≤ length gs → take n (take n gs ++ h ∷ []) ≡ take n gs
take-take-append zero gs h l = refl
take-take-append (suc n) [] h l = absurd (omega arith)
take-take-append (suc n) (g ∷ gs) h l = ap (◌∷◌ g) (take-take-append n gs h (omega arith))

length_cut :
    (s : Text) (max : ℕ)
    → max < length (chars s)
    → length (take max (chars s) ++ ellipsis ∷ []) ≡ max + 1
length_cut s max h =
    omega
      (arith, length-append {0} (take max (chars s)) (ellipsis ∷ []), length-take {0} max (chars s))

cut_length :
    (s : Text) (max : ℕ)
    → max < length (chars s)
    → length (chars (concat (take max (chars s)) ++ ellipsis)) ≤ max + 1
cut_length s max h = rw (cut_chars s max) (omega (arith, length_cut s max h))

again :
    (s : Text) (max : ℕ)
    → max < length (chars s)
    → truncate_chars (concat (take max (chars s)) ++ ellipsis) max
      ≡ concat (take max (chars s)) ++ ellipsis
again s max h =
    truncate_long (concat (take max (chars s)) ++ ellipsis) max
      (rw (cut_chars s max) (omega (arith, length_cut s max h)))
    ∙ ap (λ (gs : List Text). concat (take max gs) ++ ellipsis) (cut_chars s max)
    ∙ ap (λ (gs : List Text). concat gs ++ ellipsis)
        (take-take-append max (chars s) ellipsis (omega arith))

-- To cut again changes nothing, and what is cut has at most one character more than the bound.
pub truncate_idem :
    (s : Text) (max : ℕ)
    → (truncate_chars (truncate_chars s max) max ≡ truncate_chars s max)
      × (length (chars (truncate_chars s max)) ≤ max + 1)
truncate_idem s max = elim (Bool-cases (leb (length (chars s)) max)) [
  | inl short ↦
      let h : length (chars s) ≤ max = leb→le _ _ short in
      rw (truncate_short s max h) (truncate_short s max h, omega arith)
  | inr long ↦
      let h : max < length (chars s) = leb→lt _ _ long in
      rw (truncate_long s max h) (again s max h, cut_length s max h)
]
