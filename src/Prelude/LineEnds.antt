-- ===== src/Prelude/LineEnds.antt =====
-- Lines that end in `\r\n` in place of `\n`: the same lines, but for a `\r` at their end.
use ostk_cache.Prelude.{
  ℕ, ◌≤◌, ◌<◌, ◌≡◌, ◌⊎◌, inl, inr, refl, sym, ap, ◌∙◌, false, List, [], ◌∷◌, map, none, some, Text,
  arith, ◌==◌, if◌then◌else◌, Bool-cases, Option-cases,
}
use ostk_cache.Prelude.Lines.{split_inclusive, strip_eol, trim_end_byte}
use ostk_cache.Prelude.Utf8.{Pending, complete, first_byte, next_byte, valid_from, valid_utf8}

-- Every `\n` becomes `\r\n`.
unfoldable pub to_crlf : Text → Text
to_crlf [] = []
to_crlf (c ∷ s) = let rest = to_crlf s in if c == 10 then 13 ∷ 10 ∷ rest else c ∷ rest

-- A line without its end and without any `\r` before that.
abbrev pub clean : Text → Text
clean l = trim_end_byte 13 (strip_eol l)

abbrev step : ℕ → Text → Text
step c [] = if c == 13 then [] else c ∷ []
step c (d ∷ rest) = c ∷ d ∷ rest

trim-step : (c : ℕ) (s : Text) → trim_end_byte 13 (c ∷ s) ≡ step c (trim_end_byte 13 s)
unfolding trim_end_byte
trim-step c s =
    elim (trim_end_byte 13 s)
      as (λ r.
        elim r as (λ _. Text) [ [] ↦ if c == 13 then [] else c ∷ [] | d ∷ rest ↦ c ∷ d ∷ rest ]
        ≡ step c r) [ [] ↦ refl | d ∷ rest ↦ refl ]

clean-step : (c : ℕ) (l : Text) → (c == 10) ≡ false → clean (c ∷ l) ≡ step c (clean l)
unfolding strip_eol trim_end_byte
clean-step c [] h = rw h (trim-step c [])
clean-step c (d ∷ []) h = elim (Bool-cases (d == 10)) [
  | inl e ↦ elim (Bool-cases (c == 13)) [ inl f ↦ rw (e, f) refl | inr f ↦ rw (e, f) (rw f refl) ]
  | inr e ↦ rw e (trim-step c (d ∷ []))
]
clean-step c (d ∷ e ∷ l) h = trim-step c (strip_eol (d ∷ e ∷ l))

abbrev cons_line : ℕ → List Text → List Text
cons_line c [] = (c ∷ []) ∷ []
cons_line c (l ∷ ls) = (c ∷ l) ∷ ls

abbrev cons_step : ℕ → List Text → List Text
cons_step c [] = step c [] ∷ []
cons_step c (l ∷ ls) = step c l ∷ ls

split-newline : (s : Text) → split_inclusive (10 ∷ s) ≡ (10 ∷ []) ∷ split_inclusive s
unfolding split_inclusive
split-newline s = refl

split-other :
    (c : ℕ) (s : Text)
    → (c == 10) ≡ false
    → split_inclusive (c ∷ s) ≡ cons_line c (split_inclusive s)
unfolding split_inclusive
split-other c s h = rw h refl

cons_line-clean :
    (c : ℕ) (ls : List Text)
    → (c == 10) ≡ false
    → map clean (cons_line c ls) ≡ cons_step c (map clean ls)
unfolding trim_end_byte strip_eol
cons_line-clean c [] h = ap (λ x. x ∷ []) (clean-step c [] h)
cons_line-clean c (l ∷ ls) h = ap (λ x. x ∷ map clean ls) (clean-step c l h)

to_crlf-newline : (s : Text) → to_crlf (10 ∷ s) ≡ 13 ∷ 10 ∷ to_crlf s
unfolding to_crlf
to_crlf-newline s = refl

to_crlf-other : (c : ℕ) (s : Text) → (c == 10) ≡ false → to_crlf (c ∷ s) ≡ c ∷ to_crlf s
unfolding to_crlf
to_crlf-other c s h = rw h refl

crlf_line :
    (ls : List Text) → map clean (cons_line 13 ((10 ∷ []) ∷ ls)) ≡ map clean ((10 ∷ []) ∷ ls)
unfolding strip_eol trim_end_byte
crlf_line ls = refl

-- The cleaned lines of a text do not depend on which of the two ends its lines have.
pub clean_lines_lem :
    (s : Text) → map clean (split_inclusive (to_crlf s)) ≡ map clean (split_inclusive s)
clean_lines_lem [] = unfold to_crlf in refl
clean_lines_lem (c ∷ s) = elim (Bool-cases (c == 10)) [
  | inl e ↦
      let ten : c ≡ 10 = ground arith in
      rw ten (
        ap (λ t. map clean (split_inclusive t)) (to_crlf-newline s)
        ∙ ap (map clean)
            (split-other 13 (10 ∷ to_crlf s) refl ∙ ap (cons_line 13) (split-newline (to_crlf s)))
        ∙ crlf_line (split_inclusive (to_crlf s))
        ∙ ap (λ ls. clean (10 ∷ []) ∷ ls) (clean_lines_lem s)
        ∙ ap (map clean) (sym (split-newline s)))
  | inr e ↦
      ap (λ t. map clean (split_inclusive t)) (to_crlf-other c s e)
      ∙ ap (map clean) (split-other c (to_crlf s) e)
      ∙ cons_line-clean c (split_inclusive (to_crlf s)) e
      ∙ ap (cons_step c) (clean_lines_lem s)
      ∙ sym (cons_line-clean c (split_inclusive s) e)
      ∙ ap (map clean) (sym (split-other c s e))
]

-- Between two characters, or within one whose next byte is no ASCII.
abbrev Started : Pending → Type 0
Started p = (p.more ≡ 0) ⊎ (0x80 ≤ p.low)

first_byte-Started : (b : ℕ) (q : Pending) → first_byte b ≡ some q → Started q
unfolding first_byte
first_byte-Started b q h = ground arith

next_byte-first : (p : Pending) (b : ℕ) → p.more ≡ 0 → next_byte p b ≡ first_byte b
unfolding next_byte
next_byte-first p b h = ground arith

next_byte-Started : (p q : Pending) (b : ℕ) → Started p → next_byte p b ≡ some q → Started q
unfolding next_byte
next_byte-Started p q b s h = elim (Bool-cases (p.more == 0)) [
  | inl e ↦ first_byte-Started b q (ground arith)
  | inr e ↦ inr (ground arith)
]

-- A line end may stand only between two characters.
next_byte-low :
    (p : Pending) (b : ℕ) → (p.more == 0) ≡ false → Started p → b < 0x80 → next_byte p b ≡ none
unfolding next_byte
next_byte-low p b m s h = ground arith

valid-none : (p : Pending) (b : ℕ) (s : Text) → next_byte p b ≡ none → valid_from p (b ∷ s) ≡ false
unfolding valid_from
valid-none p b s h = ground arith

valid-some :
    (p q : Pending) (b : ℕ) (s : Text)
    → next_byte p b ≡ some q
    → valid_from p (b ∷ s) ≡ valid_from q s
unfolding valid_from
valid-some p q b s h = ground arith

first_byte-newline : (first_byte 10 ≡ some complete) × (first_byte 13 ≡ some complete)
unfolding first_byte
first_byte-newline = (refl, refl)

valid-crlf : (p : Pending) (s : Text) → Started p → valid_from p (to_crlf s) ≡ valid_from p s
valid-crlf p [] h = unfold to_crlf in refl
valid-crlf p (c ∷ s) h = elim (Bool-cases (c == 10)) [
  | inl e ↦
      let ten : c ≡ 10 = ground arith in
      rw ten (
        ap (valid_from p) (to_crlf-newline s) ∙ elim (Bool-cases (p.more == 0)) [
          | inl m ↦
              let z : p.more ≡ 0 = ground arith in
              let n = first_byte-newline in
              valid-some p complete 13 (10 ∷ to_crlf s) (next_byte-first p 13 z ∙ n.1)
              ∙ valid-some complete complete 10 (to_crlf s) (next_byte-first complete 10 refl ∙ n.0)
              ∙ valid-crlf complete s (inl refl)
              ∙ sym (valid-some p complete 10 s (next_byte-first p 10 z ∙ n.0))
          | inr m ↦
              valid-none p 13 (10 ∷ to_crlf s) (next_byte-low p 13 m h (omega arith))
              ∙ sym (valid-none p 10 s (next_byte-low p 10 m h (omega arith)))
        ])
  | inr e ↦ ap (valid_from p) (to_crlf-other c s e) ∙ elim (Option-cases (next_byte p c)) [
    | inl n ↦ valid-none p c (to_crlf s) n ∙ sym (valid-none p c s n)
    | inr (q, n) ↦
        valid-some p q c (to_crlf s) n
        ∙ valid-crlf q s (next_byte-Started p q c h n)
        ∙ sym (valid-some p q c s n)
  ]
]

pub valid_utf8-crlf : (s : Text) → valid_utf8 (to_crlf s) ≡ valid_utf8 s
unfolding valid_utf8
valid_utf8-crlf s = valid-crlf complete s (inl refl)
