-- ===== src/Prelude/Chars.antt =====
-- `str::chars` on bytes: a character is a byte and the continuation bytes behind it.
use ostk_cache.Prelude.{
  ℕ, zero, suc, ◌≡◌, refl, ap, sym, ◌∙◌, Bool, true, false, List, [], ◌∷◌, ◌++◌, append_assoc, Text,
  arith, leb, ◌&&◌, if◌then◌else◌, take, All, Bool-cases, inl, inr,
}

unfoldable pub is_continuation : ℕ → Bool
is_continuation c = leb 0x80 c && leb c 0xbf

-- The first character goes before the others, or joins the first of them.
unfoldable pub glue : ℕ → List Text → List Text
unfolding is_continuation
glue c [] = (c ∷ []) ∷ []
glue c ([] ∷ gs) = (c ∷ []) ∷ gs
glue c ((d ∷ g) ∷ gs) = if is_continuation d then (c ∷ d ∷ g) ∷ gs else (c ∷ []) ∷ (d ∷ g) ∷ gs

unfoldable pub chars : Text → List Text
unfolding glue
chars [] = []
chars (c ∷ s) = glue c (chars s)

-- `collect::<String>()`
unfoldable pub concat : List Text → Text
concat [] = []
concat (g ∷ gs) = g ++ concat gs

concat-glue : (c : ℕ) (gs : List Text) → concat (glue c gs) ≡ c ∷ concat gs
unfolding glue concat
concat-glue c [] = refl
concat-glue c ([] ∷ gs) = refl
concat-glue c ((d ∷ g) ∷ gs) = ground arith

-- The characters of a text are the text.
pub concat-chars : (s : Text) → concat (chars s) ≡ s
unfolding chars concat
concat-chars [] = refl
concat-chars (c ∷ s) = concat-glue c (chars s) ∙ ap (◌∷◌ c) (concat-chars s)

-- Characters: none is empty, each but the first begins with a byte that starts one, and the bytes
-- behind it continue it.
abbrev pub Continues : Text → Type 0
Continues g = All (λ c. is_continuation c ≡ true) g

abbrev pub AreTails : List Text → Type 0
AreTails [] = Unit
AreTails ([] ∷ gs) = ⊥
AreTails ((c ∷ g) ∷ gs) = (is_continuation c ≡ false) × Continues g × AreTails gs

abbrev pub AreChars : List Text → Type 0
AreChars [] = Unit
AreChars ([] ∷ gs) = ⊥
AreChars ((c ∷ g) ∷ gs) = Continues g × AreTails gs

glue-AreChars : (c : ℕ) (gs : List Text) → AreChars gs → AreChars (glue c gs)
unfolding glue
glue-AreChars c [] a = (tt, tt)
glue-AreChars c ((d ∷ g) ∷ gs) a = elim (Bool-cases (is_continuation d)) [
  | inl more ↦ rw more ((more, a.0), a.1)
  | inr start ↦ rw start (tt, (start, a.0, a.1))
]
glue-AreChars c ([] ∷ gs) a = absurd a

pub chars-AreChars : (s : Text) → AreChars (chars s)
unfolding chars
chars-AreChars [] = tt
chars-AreChars (c ∷ s) = glue-AreChars c (chars s) (chars-AreChars s)

AreChars-of_tails : (gs : List Text) → AreTails gs → AreChars gs
AreChars-of_tails [] a = tt
AreChars-of_tails ([] ∷ gs) a = absurd a
AreChars-of_tails ((c ∷ g) ∷ gs) a = (a.1, a.2)

-- A character and then others are read as such.
chars_first :
    (c : ℕ) (g : Text) (gs : List Text)
    → Continues g
    → AreTails gs
    → chars (concat gs) ≡ gs
    → chars ((c ∷ g) ++ concat gs) ≡ (c ∷ g) ∷ gs
unfolding chars glue concat
chars_first c [] [] k t e = refl
chars_first c [] ([] ∷ gs) k t e = absurd t
chars_first c [] ((d ∷ h) ∷ gs) k t e = rw (e, t.0) refl
chars_first c (d ∷ g) gs k t e = rw (chars_first d g gs k.1 t e, k.0) refl

-- Characters are read back.
pub chars-concat : (gs : List Text) → AreChars gs → chars (concat gs) ≡ gs
unfolding concat chars
chars-concat [] a = refl
chars-concat ([] ∷ gs) a = absurd a
chars-concat ((c ∷ g) ∷ gs) a =
    chars_first c g gs a.0 a.1 (chars-concat gs (AreChars-of_tails gs a.1))

tails-take : (n : ℕ) (gs : List Text) → AreTails gs → AreTails (take n gs)
tails-take zero gs a = tt
tails-take (suc n) [] a = tt
tails-take (suc n) ([] ∷ gs) a = absurd a
tails-take (suc n) ((c ∷ g) ∷ gs) a = (a.0, a.1, tails-take n gs a.2)

pub take-AreChars : (n : ℕ) (gs : List Text) → AreChars gs → AreChars (take n gs)
take-AreChars zero gs a = tt
take-AreChars (suc n) [] a = tt
take-AreChars (suc n) ([] ∷ gs) a = absurd a
take-AreChars (suc n) ((c ∷ g) ∷ gs) a = (a.0, tails-take n gs a.1)

tails-append : (gs hs : List Text) → AreTails gs → AreTails hs → AreTails (gs ++ hs)
tails-append [] hs a b = b
tails-append ([] ∷ gs) hs a b = absurd a
tails-append ((c ∷ g) ∷ gs) hs a b = (a.0, a.1, tails-append gs hs a.2 b)

pub append-AreChars : (gs hs : List Text) → AreChars gs → AreTails hs → AreChars (gs ++ hs)
append-AreChars [] hs a b = AreChars-of_tails hs b
append-AreChars ([] ∷ gs) hs a b = absurd a
append-AreChars ((c ∷ g) ∷ gs) hs a b = (a.0, tails-append gs hs a.1 b)

pub concat-append : (gs hs : List Text) → concat (gs ++ hs) ≡ concat gs ++ concat hs
unfolding concat
concat-append [] hs = refl
concat-append (g ∷ gs) hs =
    ap (λ t. g ++ t) (concat-append gs hs) ∙ sym (append_assoc g (concat gs) (concat hs))
