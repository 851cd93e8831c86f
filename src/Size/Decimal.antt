-- ===== src/Size/Decimal.antt =====
-- A printed number is read back.
use ostk_cache.Prelude.{
  ℕ, zero, suc, ◌+◌, ◌*◌, ◌/◌, ◌%◌, ◌≤◌, ◌<◌, ltb, ltb→lt, Bool-cases, inl, inr, ◌∙◌, ◌≡◌, refl, [],
  ◌∷◌, ◌++◌, some, arith, Text, append_assoc, append-nil, true, false, Bool, all, ◌==◌,
}
use ostk_cache.Prelude.Numbers.{is_digit, scan_digits, parse_unsigned}
use ostk_cache.Size.{digits, decimal}

-- The numbers of so many digits are below this.
abbrev pub digits_bound : ℕ → ℕ
digits_bound zero = 1
digits_bound (suc f) = 10 * digits_bound f

scan_last :
    (largest n : ℕ) (out : Text)
    → n ≤ largest
    → scan_digits largest (n / 10) ((b'0' + n % 10) ∷ out) ≡ scan_digits largest n out
unfolding scan_digits
scan_last largest n out h = ground arith

digits_none : (n : ℕ) → digits zero n ≡ []
unfolding digits
digits_none n = refl

digits_small : (f n : ℕ) → n < 10 → digits (suc f) n ≡ (b'0' + n % 10) ∷ []
unfolding digits
digits_small f n h = ground arith

digits_large : (f n : ℕ) → 10 ≤ n → digits (suc f) n ≡ digits f (n / 10) ++ (b'0' + n % 10) ∷ []
unfolding digits
digits_large f n h = ground arith

scan_small :
    (largest f n : ℕ) (out : Text)
    → n < 10
    → n ≤ largest
    → scan_digits largest 0 (digits (suc f) n ++ out) ≡ scan_digits largest n out
scan_small largest f n out h le =
    let e : n / 10 ≡ 0 = omega arith in
    rw (digits_small f n h) (rw e at (scan_last largest n out le))

scan-digits :
    (largest f n : ℕ) (out : Text)
    → n < digits_bound (suc f)
    → n ≤ largest
    → scan_digits largest 0 (digits (suc f) n ++ out) ≡ scan_digits largest n out
scan-digits largest zero n out h le = scan_small largest zero n out (omega arith) le
scan-digits largest (suc f) n out h le = elim (Bool-cases (ltb n 10)) [
  | inl small ↦ scan_small largest (suc f) n out (ltb→lt n 10 small) le
  | inr large ↦
      let ge : 10 ≤ n = ground arith in
      rw (digits_large (suc f) n ge, append_assoc)
        (scan-digits largest f (n / 10) ((b'0' + n % 10) ∷ out) (omega arith) (omega arith)
          ∙ scan_last largest n out le)
]

begins_with_digit : Text → Bool
begins_with_digit [] = false
begins_with_digit (c ∷ s) = is_digit c

begins-append : (s out : Text) → begins_with_digit s ≡ true → begins_with_digit (s ++ out) ≡ true
unfolding begins_with_digit
begins-append [] out h = cc
begins-append (c ∷ s) out h = h

begins_small : (f n : ℕ) → n < 10 → begins_with_digit (digits (suc f) n) ≡ true
unfolding begins_with_digit is_digit
begins_small f n h = rw (digits_small f n h) (ground arith)

begins-digits : (f n : ℕ) → n < digits_bound (suc f) → begins_with_digit (digits (suc f) n) ≡ true
begins-digits zero n h = begins_small zero n (omega arith)
begins-digits (suc f) n h = elim (Bool-cases (ltb n 10)) [
  | inl small ↦ begins_small (suc f) n (ltb→lt n 10 small)
  | inr large ↦
      let ge : 10 ≤ n = ground arith in
      rw (digits_large (suc f) n ge) (begins-append _ _ (begins-digits f (n / 10) (omega arith)))
]

cons_of_begins : (s : Text) → begins_with_digit s ≡ true → (c : ℕ) × (t : Text) × (s ≡ c ∷ t)
unfolding begins_with_digit
cons_of_begins [] h = absurd (ground arith)
cons_of_begins (c ∷ t) h = (c, t, refl)

parse_of_digit :
    (largest n : ℕ) (s : Text)
    → begins_with_digit s ≡ true
    → scan_digits largest 0 s ≡ some n
    → parse_unsigned largest s ≡ some n
unfolding parse_unsigned begins_with_digit is_digit
parse_of_digit largest n [] b h = cc
parse_of_digit largest n (c ∷ []) b h = ground arith
parse_of_digit largest n (c ∷ d ∷ s) b h = let e : (c == b'+') ≡ false = ground arith in rw e h

-- A number of at most twenty digits is parsed back from its print, where the type has room for it.
pub parse-decimal :
    (largest n : ℕ)
    → n < digits_bound 20
    → n ≤ largest
    → parse_unsigned largest (decimal n) ≡ some n
unfolding decimal scan_digits
parse-decimal largest n h le =
    let p : scan_digits largest 0 (digits 20 n ++ []) ≡ some n = scan-digits largest 19 n [] h le in
    parse_of_digit largest n (digits 20 n) (begins-digits 19 n h) (rw append-nil at p)

all-append :
    (p : ℕ → Bool) (s : Text) (c : ℕ) → all p s ≡ true → p c ≡ true → all p (s ++ c ∷ []) ≡ true
unfolding all
all-append p [] c h k = rw k refl
all-append p (x ∷ s) c h k = ground (arith, all-append p s c)

last_digit : (n : ℕ) → is_digit (b'0' + n % 10) ≡ true
unfolding is_digit
last_digit n = ground arith

all-digits : (f n : ℕ) → all is_digit (digits f n) ≡ true
unfolding all
all-digits zero n = rw (digits_none n) refl
all-digits (suc f) n = elim (Bool-cases (ltb n 10)) [
  | inl small ↦ rw (digits_small f n (ltb→lt n 10 small), last_digit n) refl
  | inr large ↦
      let ge : 10 ≤ n = ground arith in
      rw (digits_large f n ge) (
        all-append is_digit (digits f (n / 10)) (b'0' + n % 10) (all-digits f (n / 10))
          (last_digit n))
]

-- A print holds digits alone.
pub all-decimal : (n : ℕ) → all is_digit (decimal n) ≡ true
unfolding decimal
all-decimal n = all-digits 20 n

-- A print of at most twenty digits is not empty.
pub decimal_cons : (n : ℕ) → n < digits_bound 20 → (c : ℕ) × (s : Text) × (decimal n ≡ c ∷ s)
unfolding decimal
decimal_cons n h = cons_of_begins (digits 20 n) (begins-digits 19 n h)
