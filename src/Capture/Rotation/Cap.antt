-- ===== src/Capture/Rotation/Cap.antt =====
-- The cap over any number of captures.
use ostk_cache.Prelude.{
  ℕ, ◌+◌, ◌≤◌, ◌<◌, ◌≡◌, refl, true, List, [], ◌∷◌, ◌++◌, none, some, length, length-append, arith,
}
use ostk_cache.Capture.Rotation.{
  EntryDir, Root, Estimate, slack_of, must_scan, counted, record_and_maybe_rotate,
}
use ostk_cache.Capture.Rotation.Count.{count, Distinct, rotate_count, rotate_all}
use ostk_cache.Capture.Rotation.Newest.{rotate-count-le}

abbrev pub written : EntryDir → Root → Root
written e r = record r { entries = r.entries ++ e ∷ [] }

-- Captures that start one after the other: each writes an entry, and may rotate.
abbrev pub starts : ℕ → List EntryDir → Estimate × Root → Estimate × Root
starts max_entries [] s = s
starts max_entries (e ∷ es) (est, r) =
    starts max_entries es (record_and_maybe_rotate (λ _. true) max_entries est (written e r))

-- The estimate is the number of entries, and that is below the cap and its slack.
abbrev pub WithinCap : ℕ → Estimate × Root → Type 0
WithinCap max_entries (none, r) = ⊥
WithinCap max_entries (some n, r) =
    (n ≡ length r.entries) × (n < max_entries + slack_of max_entries)

-- What an estimate may be before a start.
abbrev Usable : ℕ → Estimate × Root → Type 0
Usable max_entries (none, r) = Unit
Usable max_entries (some n, r) = n ≡ length r.entries

record_within :
    (max_entries : ℕ) (est : Estimate) (e : EntryDir) (r : Root)
    → 0 < max_entries
    → Distinct (written e r).entries
    → Usable max_entries (est, r)
    → WithinCap max_entries (record_and_maybe_rotate (λ _. true) max_entries est (written e r))
unfolding record_and_maybe_rotate must_scan counted
record_within max_entries none e r h d u = ground (
  arith,
  rotate_count (λ _. true) max_entries (written e r) h d,
  rotate_all (λ _. true) max_entries (written e r) h (λ _. refl),
)
record_within max_entries (some n) e r h d u = ground (
  arith,
  rotate_count (λ _. true) max_entries (written e r) h d,
  rotate_all (λ _. true) max_entries (written e r) h (λ _. refl),
  length-append {0} r.entries (e ∷ []),
)

record-count-le :
    (max_entries : ℕ) (est : Estimate) (r : Root) (x : EntryDir)
    → count x (record_and_maybe_rotate (λ _. true) max_entries est r).1.entries ≤ count x r.entries
unfolding record_and_maybe_rotate
record-count-le max_entries est r x = ground (arith, rotate-count-le (λ _. true) max_entries r x)

count-append : (x : EntryDir) (es fs : List EntryDir) → count x (es ++ fs) ≡ count x es + count x fs
unfolding count
count-append x [] fs = omega arith
count-append x (e ∷ es) fs = omega (arith, count-append x es fs)

module _ (max_entries : ℕ) (est : Estimate) (e : EntryDir) (es : List EntryDir) (r : Root)
    (d : Distinct (r.entries ++ e ∷ es)) where
  abbrev after : Estimate × Root
  after = record_and_maybe_rotate (λ _. true) max_entries est (written e r)

  written-Distinct : Distinct (written e r).entries
  written-Distinct x = omega (
    arith,
    d x,
    count-append x r.entries (e ∷ es),
    count-append x r.entries (e ∷ []),
    count-append x (e ∷ []) es,
  )

  after-Distinct : Distinct (after.1.entries ++ es)
  after-Distinct x = omega (
    arith,
    d x,
    record-count-le max_entries est (written e r) x,
    count-append x r.entries (e ∷ es),
    count-append x r.entries (e ∷ []),
    count-append x (e ∷ []) es,
    count-append x after.1.entries es,
  )

after-Usable :
    (max_entries : ℕ) (est : Estimate) (r : Root)
    → WithinCap max_entries (est, r)
    → Usable max_entries (est, r)
after-Usable max_entries none r w = tt
after-Usable max_entries (some n) r w = w.0

starts_within :
    (max_entries : ℕ) (es : List EntryDir) (est : Estimate) (r : Root)
    → 0 < max_entries
    → Distinct (r.entries ++ es)
    → WithinCap max_entries (est, r)
    → WithinCap max_entries (starts max_entries es (est, r))
starts_within max_entries [] est r h d w = w
starts_within max_entries (e ∷ es) est r h d w =
    let u = after-Usable max_entries est r w in
    let s : Estimate × Root = after max_entries est e es r d in
    starts_within max_entries es s.0 s.1 h (after-Distinct max_entries est e es r d)
      (record_within max_entries est e r h (written-Distinct max_entries est e es r d) u)

-- From a root of any size and an estimate that is not known, with a cap, after one start or more
-- whose entries and those of the root are all at different paths, and where every deletion
-- succeeds, the estimate is the number of entries in the root, and that is below the cap and a
-- sixteenth of it, or the cap and one.
pub starts-WithinCap :
    (max_entries : ℕ) (e : EntryDir) (es : List EntryDir) (r : Root)
    → 0 < max_entries
    → Distinct (r.entries ++ e ∷ es)
    → WithinCap max_entries (starts max_entries (e ∷ es) (none, r))
starts-WithinCap max_entries e es r h d =
    let s : Estimate × Root = after max_entries none e es r d in
    starts_within max_entries es s.0 s.1 h (after-Distinct max_entries none e es r d)
      (record_within max_entries none e r h (written-Distinct max_entries none e es r d) tt)
