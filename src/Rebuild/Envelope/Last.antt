-- ===== src/Rebuild/Envelope/Last.antt =====
-- Skipping a quadruplet as a whole misses no other: src/rebuild.rs finds the last of a text.
use ostk_cache.Prelude.{
  ◌≡◌, refl, sym, ap, ◌∙◌, true, false, List, [], ◌∷◌, Option, none, some, Text, codes, arith,
  starts_with, or_else, Bool-cases, inl, inr,
}
use ostk_cache.Prelude.Lines.{lines}
use ostk_cache.Rebuild.Envelope.{is_quadruplet, joined_lines, scan_lines, find_envelope_quadruplet}

-- The quadruplet that some lines begin with.
unfoldable pub quadruplet_at : List Text → Option Text
quadruplet_at (a ∷ b ∷ c ∷ d ∷ rest) = elim (is_quadruplet a b c d) [
  | true ↦ some (joined_lines a b c d)
  | false ↦ none
]
quadruplet_at _ = none

-- The last place that a quadruplet begins at.
unfoldable pub last_quadruplet : List Text → Option Text
unfolding quadruplet_at
last_quadruplet [] = none
last_quadruplet (l ∷ ls) = or_else (last_quadruplet ls) (quadruplet_at (l ∷ ls))

no_procs_loadavg :
    (l : Text) → starts_with (codes "[loadavg]") l ≡ true → starts_with (codes "[procs]") l ≡ false
unfolding starts_with
no_procs_loadavg [] h = refl
no_procs_loadavg (c ∷ []) h = ground arith
no_procs_loadavg (c ∷ d ∷ l) h = ground arith

no_procs_meminfo :
    (l : Text) → starts_with (codes "[meminfo]") l ≡ true → starts_with (codes "[procs]") l ≡ false
unfolding starts_with
no_procs_meminfo [] h = refl
no_procs_meminfo (c ∷ []) h = ground arith
no_procs_meminfo (c ∷ d ∷ l) h = ground arith

no_procs_ctx :
    (l : Text) → starts_with (codes "[ctx]") l ≡ true → starts_with (codes "[procs]") l ≡ false
unfolding starts_with
no_procs_ctx [] h = refl
no_procs_ctx (c ∷ []) h = ground arith
no_procs_ctx (c ∷ d ∷ l) h = ground arith

no_start :
    (l : Text) (ls : List Text)
    → starts_with (codes "[procs]") l ≡ false
    → quadruplet_at (l ∷ ls) ≡ none
unfolding quadruplet_at is_quadruplet
no_start l [] h = refl
no_start l (b ∷ []) h = refl
no_start l (b ∷ c ∷ []) h = refl
no_start l (b ∷ c ∷ d ∷ rest) h = ground arith

or_else-none : (o : Option Text) → or_else o none ≡ o
or_else-none none = refl
or_else-none (some t) = refl

skip :
    (l : Text) (ls : List Text)
    → starts_with (codes "[procs]") l ≡ false
    → last_quadruplet (l ∷ ls) ≡ last_quadruplet ls
unfolding last_quadruplet
skip l ls h =
    ap (or_else (last_quadruplet ls)) (no_start l ls h) ∙ or_else-none (last_quadruplet ls)

quadruplet-parts :
    (a b c d : Text)
    → is_quadruplet a b c d ≡ true
    → (starts_with (codes "[loadavg]") b ≡ true)
      × ((starts_with (codes "[meminfo]") c ≡ true) × (starts_with (codes "[ctx]") d ≡ true))
unfolding is_quadruplet
quadruplet-parts a b c d h = ground arith

quadruplet_at-hit :
    (a b c d : Text) (rest : List Text)
    → is_quadruplet a b c d ≡ true
    → quadruplet_at (a ∷ b ∷ c ∷ d ∷ rest) ≡ some (joined_lines a b c d)
unfolding quadruplet_at
quadruplet_at-hit a b c d rest h = ground arith

quadruplet_at-miss :
    (a b c d : Text) (rest : List Text)
    → is_quadruplet a b c d ≡ false
    → quadruplet_at (a ∷ b ∷ c ∷ d ∷ rest) ≡ none
unfolding quadruplet_at
quadruplet_at-miss a b c d rest h = ground arith

-- Where the lines begin with a quadruplet, the next that can begin is behind it.
last_quadruplet-hit :
    (a b c d : Text) (rest : List Text)
    → is_quadruplet a b c d ≡ true
    → last_quadruplet (a ∷ b ∷ c ∷ d ∷ rest)
      ≡ or_else (last_quadruplet rest) (some (joined_lines a b c d))
unfolding last_quadruplet
last_quadruplet-hit a b c d rest h =
    let (two, (three, four)) = quadruplet-parts a b c d h in
    let behind : last_quadruplet (b ∷ c ∷ d ∷ rest) ≡ last_quadruplet rest =
      skip b (c ∷ d ∷ rest) (no_procs_loadavg b two)
      ∙ skip c (d ∷ rest) (no_procs_meminfo c three)
      ∙ skip d rest (no_procs_ctx d four) in
    ap (λ o. or_else o (quadruplet_at (a ∷ b ∷ c ∷ d ∷ rest))) behind
    ∙ ap (or_else (last_quadruplet rest)) (quadruplet_at-hit a b c d rest h)

last_quadruplet-miss :
    (a b c d : Text) (rest : List Text)
    → is_quadruplet a b c d ≡ false
    → last_quadruplet (a ∷ b ∷ c ∷ d ∷ rest) ≡ last_quadruplet (b ∷ c ∷ d ∷ rest)
unfolding last_quadruplet
last_quadruplet-miss a b c d rest h =
    ap (or_else (last_quadruplet (b ∷ c ∷ d ∷ rest))) (quadruplet_at-miss a b c d rest h)
    ∙ or_else-none (last_quadruplet (b ∷ c ∷ d ∷ rest))

scan_lines-hit :
    (last : Option Text) (a b c d : Text) (rest : List Text)
    → is_quadruplet a b c d ≡ true
    → scan_lines last (a ∷ b ∷ c ∷ d ∷ rest) ≡ scan_lines (some (joined_lines a b c d)) rest
unfolding scan_lines
scan_lines-hit last a b c d rest h = ground arith

scan_lines-miss :
    (last : Option Text) (a b c d : Text) (rest : List Text)
    → is_quadruplet a b c d ≡ false
    → scan_lines last (a ∷ b ∷ c ∷ d ∷ rest) ≡ scan_lines last (b ∷ c ∷ d ∷ rest)
unfolding scan_lines
scan_lines-miss last a b c d rest h = ground arith

or_else_assoc : (x y z : Option Text) → or_else (or_else x y) z ≡ or_else x (or_else y z)
or_else_assoc none y z = refl
or_else_assoc (some t) y z = refl

scan_lines-last :
    (last : Option Text) (ls : List Text) → scan_lines last ls ≡ or_else (last_quadruplet ls) last
scan_lines-last last [] = unfold scan_lines last_quadruplet in refl
scan_lines-last last (a ∷ []) = unfold scan_lines last_quadruplet quadruplet_at in refl
scan_lines-last last (a ∷ b ∷ []) = unfold scan_lines last_quadruplet quadruplet_at in refl
scan_lines-last last (a ∷ b ∷ c ∷ []) = unfold scan_lines last_quadruplet quadruplet_at in refl
scan_lines-last last (a ∷ b ∷ c ∷ d ∷ rest) = elim (Bool-cases (is_quadruplet a b c d)) [
  | inl h ↦
      let q = some (joined_lines a b c d) in
      scan_lines-hit last a b c d rest h
      ∙ scan_lines-last q rest
      ∙ sym (
          ap (λ o. or_else o last) (last_quadruplet-hit a b c d rest h)
          ∙ or_else_assoc (last_quadruplet rest) q last)
  | inr h ↦
      scan_lines-miss last a b c d rest h
      ∙ scan_lines-last last (b ∷ c ∷ d ∷ rest)
      ∙ sym (ap (λ o. or_else o last) (last_quadruplet-miss a b c d rest h))
]

-- The envelope found in a text is the quadruplet at the last line that four such lines begin at, and
-- there is none only where no line begins one: the lines that the scan skips begin none.
pub find_envelope-last :
    (text : Text) → find_envelope_quadruplet text ≡ last_quadruplet (lines text)
unfolding find_envelope_quadruplet
find_envelope-last text =
    scan_lines-last none (lines text) ∙ or_else-none (last_quadruplet (lines text))
