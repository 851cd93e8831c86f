-- ===== src/Capture/Rotation/Newest.antt =====
-- Which entries a rotation takes.
use ostk_cache.Prelude.{
  ℕ, zero, suc, ◌-◌, ◌≤◌, ◌≡◌, refl, Bool, true, false, List, [], ◌∷◌, Text, leb, length, take,
  retain, arith, Bool-cases, leb→le, leb→lt, inl, inr, ◌⊎◌,
}
use ostk_cache.Capture.Rotation.{
  EntryDir, Root, same_dir, name_le, insert_dir, sort_dirs, remove_dir, Swept, deleting, sweep,
  oldest, unswept, prune_shards, rotate_capture_dir,
}
use ostk_cache.Capture.Rotation.Count.{
  same_dir_iff, count, count-insert, count-sort, without, count-without_ne,
}

name_le_total : (s t : Text) → name_le s t ≡ false → name_le t s ≡ true
unfolding name_le
name_le_total [] t h = cc
name_le_total (x ∷ s) [] h = refl
name_le_total (x ∷ s) (y ∷ t) h = ground (arith, name_le_total s t)

name_le_trans : (s t u : Text) → name_le s t ≡ true → name_le t u ≡ true → name_le s u ≡ true
unfolding name_le
name_le_trans [] t u h k = refl
name_le_trans (x ∷ s) [] u h k = cc
name_le_trans (x ∷ s) (y ∷ t) [] h k = cc
name_le_trans (x ∷ s) (y ∷ t) (z ∷ u) h k = ground (arith, name_le_trans s t u)

abbrev pub Older : EntryDir → EntryDir → Type 0
Older e d = name_le e.name d.name ≡ true

-- An entry that is in a list.
abbrev pub In : EntryDir → List EntryDir → Type 0
In e es = 1 ≤ count e es

abbrev SortedDirs : List EntryDir → Type 0
SortedDirs [] = Unit
SortedDirs (x ∷ xs) = ((d : EntryDir) → In d xs → Older x d) × SortedDirs xs

-- An entry of a longer list is the head, or in the tail.
In-cons : (d x : EntryDir) (xs : List EntryDir) → In d (x ∷ xs) → (d ≡ x) ⊎ In d xs
unfolding count
In-cons d x xs h = elim (Bool-cases (same_dir d x)) [
  | inl same ↦ inl ((same_dir_iff d x).0 same)
  | inr ne ↦ inr (ground arith)
]

In-insert : (d e : EntryDir) (ds : List EntryDir) → In d (insert_dir e ds) → (d ≡ e) ⊎ In d ds
In-insert d e ds h = elim (Bool-cases (same_dir d e)) [
  | inl same ↦ inl ((same_dir_iff d e).0 same)
  | inr ne ↦ inr (ground (arith, count-insert d e ds))
]

insert-SortedDirs :
    (e : EntryDir) (ds : List EntryDir) → SortedDirs ds → SortedDirs (insert_dir e ds)
unfolding insert_dir count
insert-SortedDirs e [] s = ((λ d h. absurd (omega arith)), tt)
insert-SortedDirs e (d ∷ ds) s = elim (Bool-cases (name_le e.name d.name)) [
  | inl le ↦ rw le (
    (λ y h. elim (In-cons y d ds h) [
      | inl same ↦ rw same le
      | inr later ↦ name_le_trans e.name d.name y.name le (s.0 y later)
    ]),
    s,
  )
  | inr gt ↦ rw gt (
    (λ y h. elim (In-insert y e ds h) [
      | inl same ↦ rw same (name_le_total e.name d.name gt)
      | inr later ↦ s.0 y later
    ]),
    insert-SortedDirs e ds s.1,
  )
]

sort-SortedDirs : (es : List EntryDir) → SortedDirs (sort_dirs es)
unfolding sort_dirs
sort-SortedDirs [] = tt
sort-SortedDirs (e ∷ es) = insert-SortedDirs e (sort_dirs es) (sort-SortedDirs es)

no_first : (e : EntryDir) → ¬ In e []
unfolding count
no_first e h = omega arith

-- What is among the first of a sorted list is older than what is in the list and not among them.
take-Older :
    (k : ℕ) (es : List EntryDir) (e d : EntryDir)
    → SortedDirs es
    → In e (take k es)
    → In d es
    → count d (take k es) ≡ 0
    → Older e d
unfolding count
take-Older zero es e d s h i o = absurd (no_first e h)
take-Older (suc k) [] e d s h i o = absurd (no_first e h)
take-Older (suc k) (x ∷ es) e d s h i o =
    let ne : same_dir d x ≡ false = ground arith in
    let later : In d es = ground arith in
    elim (In-cons e x (take k es) h) [
      | inl same ↦ rw same (s.0 d later)
      | inr rest ↦ take-Older k es e d s.1 rest later (ground arith)
    ]

sweep_other :
    (removable : EntryDir → Bool) (e : EntryDir) (es : List EntryDir) (s : Swept)
    → count e es ≡ 0
    → count e (sweep removable es s).root.entries ≡ count e s.root.entries
unfolding sweep deleting remove_dir count
sweep_other removable e [] s h = refl
sweep_other removable e (d ∷ es) s h = ground (
  arith,
  sweep_other removable e es s,
  sweep_other removable e es (deleting d s),
  count-without_ne d e s.root.entries,
)

count-without-le : (e d : EntryDir) (es : List EntryDir) → count e (without d es) ≤ count e es
unfolding retain count
count-without-le e d [] = omega arith
count-without-le e d (x ∷ es) = ground (arith, count-without-le e d es)

count-without_self : (e : EntryDir) (es : List EntryDir) → count e (without e es) ≡ 0
unfolding retain count
count-without_self e [] = refl
count-without_self e (x ∷ es) = ground (arith, count-without_self e es)

sweep-count-le :
    (removable : EntryDir → Bool) (e : EntryDir) (es : List EntryDir) (s : Swept)
    → count e (sweep removable es s).root.entries ≤ count e s.root.entries
unfolding sweep deleting remove_dir
sweep-count-le removable e [] s = omega arith
sweep-count-le removable e (d ∷ es) s = ground (
  arith,
  sweep-count-le removable e es s,
  sweep-count-le removable e es (deleting d s),
  count-without-le e d s.root.entries,
)

-- A swept entry that can be removed is gone.
sweep_gone :
    (removable : EntryDir → Bool) (e : EntryDir) (es : List EntryDir) (s : Swept)
    → removable e ≡ true
    → In e es
    → count e (sweep removable es s).root.entries ≡ 0
unfolding sweep deleting remove_dir count
sweep_gone removable e [] s r h = absurd (omega arith)
sweep_gone removable e (d ∷ es) s r h = elim (Bool-cases (same_dir e d)) [
  | inl same ↦ ground (
    arith,
    (same_dir_iff e d).0 same,
    count-without_self e s.root.entries,
    sweep-count-le removable e es (deleting d s),
  )
  | inr ne ↦
      ground (arith, sweep_gone removable e es s r, sweep_gone removable e es (deleting d s) r)
]

gone_oldest :
    (removable : EntryDir → Bool) (max_entries : ℕ) (r : Root) (e : EntryDir)
    → In e r.entries
    → count e (rotate_capture_dir removable max_entries r).1.entries ≡ 0
    → In e (oldest max_entries r.entries)
unfolding rotate_capture_dir prune_shards
gone_oldest removable max_entries r e h gone =
    ground (arith, sweep_other removable e (oldest max_entries r.entries) (unswept r))

kept-In :
    (removable : EntryDir → Bool) (max_entries : ℕ) (r : Root) (d : EntryDir)
    → In d (rotate_capture_dir removable max_entries r).1.entries
    → In d (sort_dirs r.entries)
unfolding rotate_capture_dir prune_shards
kept-In removable max_entries r d kept = ground (
  arith,
  count-sort d r.entries,
  sweep-count-le removable d (oldest max_entries r.entries) (unswept r),
)

kept_new :
    (removable : EntryDir → Bool) (max_entries : ℕ) (r : Root) (e d : EntryDir)
    → In e r.entries
    → count e (rotate_capture_dir removable max_entries r).1.entries ≡ 0
    → In d (rotate_capture_dir removable max_entries r).1.entries
    → removable d ≡ true
    → count d (oldest max_entries r.entries) ≡ 0
unfolding rotate_capture_dir prune_shards
kept_new removable max_entries r e d h gone kept rm =
    elim (Bool-cases (leb 1 (count d (oldest max_entries r.entries)))) [
      | inl in_it ↦ ground (
        arith,
        sweep_gone removable d (oldest max_entries r.entries) (unswept r) rm (leb→le _ _ in_it),
      )
      | inr out ↦ omega (arith, leb→lt _ _ out)
    ]

-- Of two entries that can be removed, one that a rotation has taken is not newer, by its name, than
-- one that it has left.
pub rotate_newest :
    (removable : EntryDir → Bool) (max_entries : ℕ) (r : Root) (e d : EntryDir)
    → In e r.entries
    → count e (rotate_capture_dir removable max_entries r).1.entries ≡ 0
    → In d (rotate_capture_dir removable max_entries r).1.entries
    → removable d ≡ true
    → Older e d
rotate_newest removable max_entries r e d h gone kept rm =
    take-Older (length r.entries - max_entries) (sort_dirs r.entries) e d
      (sort-SortedDirs r.entries) (gone_oldest removable max_entries r e h gone)
      (kept-In removable max_entries r d kept) (kept_new removable max_entries r e d h gone kept rm)

-- No rotation puts an entry in.
pub rotate-count-le :
    (removable : EntryDir → Bool) (max_entries : ℕ) (r : Root) (e : EntryDir)
    → count e (rotate_capture_dir removable max_entries r).1.entries ≤ count e r.entries
unfolding rotate_capture_dir prune_shards
rotate-count-le removable max_entries r e =
    ground (arith, sweep-count-le removable e (oldest max_entries r.entries) (unswept r))
