-- ===== src/CycleDigest/Fence.antt =====
-- Which fence a digest is read from.
use ostk_cache.Prelude.{
  ℕ, ◌≡◌, refl, ap, true, false, ◌==◌, [], ◌∷◌, ◌++◌, none, some, Text, starts_with,
  starts_with_append, str_contains, drop, All, all, not, ◌&&◌, arith, Bool-cases, inl, inr, ◌>>=◌,
}
use ostk_cache.Prelude.Utf8.{trim}
use ostk_cache.ReminderStrip.{find}
use ostk_cache.TranscriptTail.Written.{drop-length}
use ostk_cache.CycleDigest.{
  fence_open, fence_close, Serde, find_last, fence_body, digest_of, assistant_text, parse_digest,
}

contains_cons :
    (c : ℕ) (s needle : Text)
    → str_contains (c ∷ s) needle ≡ false
    → (starts_with needle (c ∷ s) ≡ false) × (str_contains s needle ≡ false)
unfolding str_contains
contains_cons c s needle h = ground arith

find_last-none : (needle s : Text) → str_contains s needle ≡ false → find_last needle s ≡ none
unfolding find_last
find_last-none needle [] h = refl
find_last-none needle (c ∷ s) h =
    let p = contains_cons c s needle h in rw (find_last-none needle s p.1, p.0) refl

find_last-append :
    (needle pre s after : Text)
    → find_last needle s ≡ some after
    → find_last needle (pre ++ s) ≡ some after
unfolding find_last
find_last-append needle [] s after h = h
find_last-append needle (c ∷ pre) s after h = rw (find_last-append needle pre s after h) refl

-- Bytes that are none of a tag's first.
abbrev Others : ℕ → Text → Type 0
Others a p = All (λ c. ((a == c) ≡ false) × ((c == a) ≡ false)) p

starts-across :
    (a : ℕ) (q s u : Text)
    → Others a q
    → starts_with q s ≡ false
    → starts_with q (s ++ (a ∷ u)) ≡ false
unfolding starts_with
starts-across a [] s u o h = absurd (cc h)
starts-across a (x ∷ q) [] u o h = rw o.0.1 refl
starts-across a (x ∷ q) (c ∷ s) u o h = elim (Bool-cases (x == c)) [
  | inl same ↦ rw same (starts-across a q s u o.1 (rw same at h))
  | inr other ↦ rw other refl
]

all-Others : (a : ℕ) (p : Text) → all (λ c. not (a == c) && not (c == a)) p ≡ true → Others a p
unfolding all
all-Others a [] h = tt
all-Others a (c ∷ p) h = ((ground arith, ground arith), all-Others a p (ground arith))

-- A tag: its first byte is in it once.
module _ (a : ℕ) (p : Text) (once : Others a p) where
  starts-before :
      (c : ℕ) (s post : Text)
      → starts_with (a ∷ p) (c ∷ s) ≡ false
      → starts_with (a ∷ p) (c ∷ s ++ ((a ∷ p) ++ post)) ≡ false
  unfolding starts_with
  starts-before c s post h = elim (Bool-cases (a == c)) [
    | inl same ↦ rw same (starts-across a p s (p ++ post) once (rw same at h))
    | inr other ↦ rw other refl
  ]

  -- The tag is found where it begins.
  find-here :
      (s post : Text)
      → str_contains s (a ∷ p) ≡ false
      → find (a ∷ p) (s ++ ((a ∷ p) ++ post)) ≡ some (s, post)
  unfolding find
  find-here [] post h =
      rw (starts_with_append (a ∷ p) post) (ap (λ t. some ([], t)) (drop-length p post))
  find-here (c ∷ s) post h =
      let k = contains_cons c s (a ∷ p) h in
      rw (starts-before c s post k.0, find-here s post k.1) refl

  -- No other tag begins inside one.
  find_last-inside :
      (q s : Text) → Others a q → find_last (a ∷ p) s ≡ none → find_last (a ∷ p) (q ++ s) ≡ none
  unfolding find_last starts_with
  find_last-inside [] s o h = h
  find_last-inside (x ∷ q) s o h = rw (find_last-inside q s o.1 h, o.0.0) refl

  find_last-tag :
      (s : Text) → str_contains s (a ∷ p) ≡ false → find_last (a ∷ p) ((a ∷ p) ++ s) ≡ some s
  unfolding find_last
  find_last-tag s h =
      rw (find_last-inside p s once (find_last-none (a ∷ p) s h), starts_with_append (a ∷ p) s)
        (ap some (drop-length p s))

open_once : Others b'<' (drop 1 fence_open)
open_once = all-Others b'<' (drop 1 fence_open) (unfold all in refl)

close_once : Others b'<' (drop 1 fence_close)
close_once = all-Others b'<' (drop 1 fence_close) (unfold all in refl)

-- Where the text of a response has a fence that is closed, with no closing tag inside and no opening
-- tag behind its own, the digest is what stands in that fence, parsed with no blanks around it,
-- whatever stands before: fences too.
pub parse-last_fence :
    (serde : Serde) (ts body pre json_body post : Text)
    → assistant_text serde body ≡ pre ++ (fence_open ++ (json_body ++ (fence_close ++ post)))
    → str_contains json_body fence_close ≡ false
    → str_contains (json_body ++ (fence_close ++ post)) fence_open ≡ false
    → parse_digest serde ts body
      ≡ (serde.from_str (trim json_body) >>= λ parsed. some (digest_of ts parsed))
unfolding parse_digest fence_body
parse-last_fence serde ts body pre json_body post e c o =
    rw
      (
        e,
        find_last-append fence_open pre (fence_open ++ (json_body ++ (fence_close ++ post)))
            (json_body ++ (fence_close ++ post))
            (find_last-tag b'<' (drop 1 fence_open) open_once (json_body ++ (fence_close ++ post))
              o),
        find-here b'<' (drop 1 fence_close) close_once json_body post c,
      )
      refl
