-- ===== src/Session/Match.antt =====
-- How far the turns of a history agree: the loop of `render_partition` in src/lib.rs.
use ostk_cache.Prelude.{
  ℕ, zero, suc, ◌≤◌, ◌≡◌, refl, sym, List, [], ◌∷◌, Text, eqb, eqb_iff, length, length-append, take,
  All, arith, ltb, leb, leb→le, leb→lt, Bool-cases, inl, inr, if◌then◌else◌,
}
use ostk_cache.Prelude.Chars.{chars, concat}
use ostk_cache.Session.{current_match, lcp_len}

-- The bytes of some first characters.
abbrev pub span : ℕ → List Text → ℕ
span k cs = length (concat (take k cs))

span_mono : (j k : ℕ) (cs : List Text) → j ≤ k → span j cs ≤ span k cs
unfolding concat
span_mono zero k cs h = omega arith
span_mono (suc j) zero cs h = absurd (omega arith)
span_mono (suc j) (suc k) [] h = omega arith
span_mono (suc j) (suc k) (c ∷ cs) h = omega (
  arith,
  length-append c (concat (take j cs)),
  length-append c (concat (take k cs)),
  span_mono j k cs (omega arith),
)

-- Two turns agree on so many first characters.
abbrev pub Agree : ℕ → List Text → List Text → Type 0
Agree k cs ds = take k cs ≡ take k ds

Agree-le : (j k : ℕ) (cs ds : List Text) → j ≤ k → Agree k cs ds → Agree j cs ds
Agree-le zero k cs ds h a = refl
Agree-le (suc j) zero cs ds h a = absurd (omega arith)
Agree-le (suc j) (suc k) [] [] h a = refl
Agree-le (suc j) (suc k) [] (d ∷ ds) h a = absurd (cc a)
Agree-le (suc j) (suc k) (c ∷ cs) [] h a = absurd (cc a)
Agree-le (suc j) (suc k) (c ∷ cs) (d ∷ ds) h a =
    let e : c ≡ d = cc a in
    let t : take j cs ≡ take j ds = Agree-le j k cs ds (omega arith) (cc a) in cc (e, t)

-- How many first characters the match has.
match_agrees : (cs ds : List Text) → (k : ℕ) × (current_match cs ds ≡ span k cs) × Agree k cs ds
unfolding current_match concat
match_agrees [] ds = (zero, refl, refl)
match_agrees (c ∷ cs) [] = (zero, refl, refl)
match_agrees (c ∷ cs) (d ∷ ds) = elim (Bool-cases (eqb c d)) [
  | inl same ↦
      let e : c ≡ d = (eqb_iff c d).0 same in
      let (k, n, a) = match_agrees cs ds in
      (suc k, rw (same, n) (sym (length-append c (concat (take k cs)))), cc (e, a))
  | inr other ↦ (zero, rw other refl, refl)
]

match_longest : (j : ℕ) (cs ds : List Text) → Agree j cs ds → span j cs ≤ current_match cs ds
unfolding current_match concat
match_longest zero cs ds a = omega arith
match_longest (suc j) [] ds a = omega arith
match_longest (suc j) (c ∷ cs) [] a = absurd (cc a)
match_longest (suc j) (c ∷ cs) (d ∷ ds) a =
    let e : c ≡ d = cc a in
    let t : take j cs ≡ take j ds = cc a in
    rw ((eqb_iff c d).1 e)
      (omega (arith, length-append c (concat (take j cs)), match_longest j cs ds t))

-- What the loop keeps for the first turn and the turns before: so many first characters, on which
-- all agree, and no more.
pub record IsLcp (cs : List Text) (seen : List Text) (lcp : ℕ) : Type 0 where
  pub k : ℕ
  pub bytes : lcp ≡ span k cs
  pub agree : All (λ t. Agree k cs (chars t)) seen
  pub longest : (j : ℕ) → All (λ t. Agree j cs (chars t)) seen → span j cs ≤ lcp

All-Agree_le :
    (j k : ℕ) (cs : List Text) (seen : List Text)
    → j ≤ k
    → All (λ t. Agree k cs (chars t)) seen
    → All (λ t. Agree j cs (chars t)) seen
All-Agree_le j k cs [] h a = tt
All-Agree_le j k cs (t ∷ seen) h a =
    (Agree-le j k cs (chars t) h a.0, All-Agree_le j k cs seen h a.1)

smaller_left : (m n : ℕ) → m ≤ n → (if ltb m n then m else n) ≡ m
smaller_left m n h = ground arith

smaller_right : (m n : ℕ) → n ≤ m → (if ltb m n then m else n) ≡ n
smaller_right m n h = ground arith

next-IsLcp :
    (cs : List Text) (t : Text) (seen : List Text) (lcp : ℕ)
    → IsLcp cs seen lcp
    → IsLcp cs
        (t ∷ seen)
        (if ltb (current_match cs (chars t)) lcp then current_match cs (chars t) else lcp)
next-IsLcp cs t seen lcp l =
    let m = current_match cs (chars t) in
    let (j, n, a) = match_agrees cs (chars t) in
    elim (Bool-cases (leb j l.k)) [
      | inl fewer ↦
          let le : j ≤ l.k = leb→le _ _ fewer in
          let h : m ≤ lcp = rw (n, l.bytes) (span_mono j l.k cs le) in
          rw (smaller_left m lcp h) (record {
            k = j;
            bytes = n;
            agree = (a, All-Agree_le j l.k cs seen le l.agree);
            longest = λ i all_agree. match_longest i cs (chars t) all_agree.0;
          })
      | inr more ↦
          let le : l.k ≤ j = omega (arith, leb→lt _ _ more) in
          let h : lcp ≤ m = rw (n, l.bytes) (span_mono l.k j cs le) in
          rw (smaller_right m lcp h) (record {
            k = l.k;
            bytes = l.bytes;
            agree = (Agree-le l.k j cs (chars t) le a, l.agree);
            longest = λ i all_agree. l.longest i all_agree.1;
          })
    ]

-- Turns in the order of the loop's, the last first.
abbrev onto : List Text → List Text → List Text
onto [] seen = seen
onto (t ∷ ts) seen = onto ts (t ∷ seen)

pub lcp_len-IsLcp :
    (first : Text) (history seen : List Text) (lcp : ℕ)
    → IsLcp (chars first) seen lcp
    → IsLcp (chars first) (onto history seen) (lcp_len first lcp history)
unfolding lcp_len
lcp_len-IsLcp first [] seen lcp l = l
lcp_len-IsLcp first (t ∷ history) seen lcp l =
    lcp_len-IsLcp first history (t ∷ seen)
      (if ltb (current_match (chars first) (chars t)) lcp
        then current_match (chars first) (chars t)
        else lcp)
      (next-IsLcp (chars first) t seen lcp l)

pub All-onto :
    (P : Text → Type 0) (ts seen : List Text) → All P (onto ts seen) → All P ts × All P seen
All-onto P [] seen a = (tt, a)
All-onto P (t ∷ ts) seen a = let b = All-onto P ts (t ∷ seen) a in ((b.1.0, b.0), b.1.1)

pub onto-All :
    (P : Text → Type 0) (ts seen : List Text) → All P ts → All P seen → All P (onto ts seen)
onto-All P [] seen a b = b
onto-All P (t ∷ ts) seen a b = onto-All P ts (t ∷ seen) a.1 (a.0, b)
