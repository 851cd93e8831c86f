-- ===== src/Capture/Rotation/Count.antt =====
-- How many entries a rotation leaves.
use ostk_cache.Prelude.{
  ℕ, zero, suc, ◌+◌, ◌-◌, ◌≤◌, ◌<◌, ◌≡◌, ◌↔◌, refl, ◌∙◌, Bool, true, false, not, List, [], ◌∷◌,
  Option, none, some, Text, eqb_iff, if◌then◌else◌, length, take, retain, arith, min, length-take,
}
use ostk_cache.Capture.Rotation.{
  EntryDir, Root, same_shard, same_dir, insert_dir, sort_dirs, deleting, oldest, unswept,
  remove_dir, Swept, sweep, prune_shards, rotate_capture_dir,
}

same_shard_iff : (a b : Option Text) → (same_shard a b ≡ true) ↔ (a ≡ b)
unfolding same_shard
same_shard_iff none none = ground arith
same_shard_iff none (some b) = ground arith
same_shard_iff (some a) none = ground arith
same_shard_iff (some a) (some b) = ground (arith, eqb_iff a b)

pub same_dir_iff : (a b : EntryDir) → (same_dir a b ≡ true) ↔ (a ≡ b)
unfolding same_dir
same_dir_iff a b = ground (arith, same_shard_iff a.shard b.shard, eqb_iff a.name b.name)

pub same_dir_refl : (a : EntryDir) → same_dir a a ≡ true
same_dir_refl a = (same_dir_iff a a).1 refl

-- How often an entry stands in a list.
unfoldable pub count : EntryDir → List EntryDir → ℕ
count e [] = 0
count e (d ∷ ds) = (if same_dir e d then 1 else 0) + count e ds

-- No entry stands twice.
abbrev pub Distinct : List EntryDir → Type 0
Distinct es = (e : EntryDir) → count e es ≤ 1

pub count-insert :
    (e d : EntryDir) (ds : List EntryDir)
    → count e (insert_dir d ds) ≡ (if same_dir e d then 1 else 0) + count e ds
unfolding insert_dir count
count-insert e d [] = refl
count-insert e d (x ∷ ds) = ground (arith, count-insert e d ds)

pub count-sort : (e : EntryDir) (es : List EntryDir) → count e (sort_dirs es) ≡ count e es
unfolding sort_dirs count
count-sort e [] = refl
count-sort e (d ∷ ds) = ground (arith, count-insert e d (sort_dirs ds), count-sort e ds)

length-insert : (d : EntryDir) (ds : List EntryDir) → length (insert_dir d ds) ≡ suc (length ds)
unfolding insert_dir
length-insert d [] = refl
length-insert d (x ∷ ds) = ground (arith, length-insert d ds)

pub length-sort : (es : List EntryDir) → length (sort_dirs es) ≡ length es
unfolding sort_dirs
length-sort [] = refl
length-sort (d ∷ ds) = ground (arith, length-insert d (sort_dirs ds), length-sort ds)

abbrev pub without : EntryDir → List EntryDir → List EntryDir
without e = retain (λ d. not (same_dir e d))

pub length-without :
    (e : EntryDir) (ds : List EntryDir) → length (without e ds) + count e ds ≡ length ds
unfolding retain count
length-without e [] = refl
length-without e (d ∷ ds) = ground (arith, length-without e ds)

pub count-without_ne :
    (e o : EntryDir) (ds : List EntryDir)
    → same_dir o e ≡ false
    → count o (without e ds) ≡ count o ds
unfolding retain count
count-without_ne e o [] h = refl
count-without_ne e o (d ∷ ds) h =
    ground (arith, same_dir_iff o e, same_dir_iff o d, same_dir_iff e d, count-without_ne e o ds)

-- What is left to delete stands once in the root, and once in the list.
abbrev pub Once : List EntryDir → List EntryDir → Type 0
Once [] entries = Unit
Once (e ∷ es) entries = (count e entries ≡ 1) × (count e es ≡ 0) × Once es entries

Once-without :
    (e : EntryDir) (es entries : List EntryDir)
    → count e es ≡ 0
    → Once es entries
    → Once es (without e entries)
unfolding count
Once-without e [] entries h o = tt
Once-without e (d ∷ es) entries h o =
    let ne : same_dir d e ≡ false = ground (arith, same_dir_iff e d, same_dir_iff d e) in
    (count-without_ne e d entries ne ∙ o.0, o.1, Once-without e es entries (ground arith) o.2)

-- Each deletion that is counted took one entry.
pub sweep_count :
    (removable : EntryDir → Bool) (es : List EntryDir) (s : Swept)
    → Once es s.root.entries
    → length (sweep removable es s).root.entries + (sweep removable es s).deleted
      ≡ length s.root.entries + s.deleted
unfolding sweep deleting remove_dir
sweep_count removable [] s o = refl
sweep_count removable (e ∷ es) s o = ground (
  arith,
  sweep_count removable es (deleting e s) (Once-without e es s.root.entries o.1 o.2),
  sweep_count removable es s o.2,
  length-without e s.root.entries,
)

-- Where every deletion succeeds, each is counted.
pub sweep_all :
    (removable : EntryDir → Bool) (es : List EntryDir) (s : Swept)
    → ((e : EntryDir) → removable e ≡ true)
    → (sweep removable es s).deleted ≡ s.deleted + length es
unfolding sweep deleting
sweep_all removable [] s all_go = omega arith
sweep_all removable (e ∷ es) s all_go =
    ground (arith, all_go e, sweep_all removable es (deleting e s) all_go)

count-take-le : (e : EntryDir) (k : ℕ) (es : List EntryDir) → count e (take k es) ≤ count e es
unfolding count
count-take-le e zero es = omega arith
count-take-le e (suc k) [] = omega arith
count-take-le e (suc k) (d ∷ es) = omega (arith, count-take-le e k es)

-- The first entries of a list that holds no more than the root.
Once-take :
    (k : ℕ) (es entries : List EntryDir)
    → ((e : EntryDir) → count e es ≤ count e entries)
    → Distinct entries
    → Once (take k es) entries
unfolding count
Once-take zero es entries le d = tt
Once-take (suc k) [] entries le d = tt
Once-take (suc k) (e ∷ es) entries le d =
    let self : (if same_dir e e then 1 else 0) + count e es ≤ count e entries = le e in
    let here : 1 + count e es ≤ count e entries = rw (same_dir_refl e) at self in
    (
      omega (arith, d e),
      omega (arith, d e, count-take-le e k es),
      Once-take k es entries (λ x. omega (arith, le x)) d,
    )

pub oldest-Once :
    (max_entries : ℕ) (es : List EntryDir) → Distinct es → Once (oldest max_entries es) es
oldest-Once max_entries es d =
    Once-take (length es - max_entries) (sort_dirs es) es (λ e. omega (arith, count-sort e es)) d

pub length-oldest :
    (max_entries : ℕ) (es : List EntryDir)
    → length (oldest max_entries es) ≡ length es - max_entries
length-oldest max_entries es =
    length-take {0} (length es - max_entries) (sort_dirs es) ∙ omega (arith, length-sort es)

pub prune_keeps : (touched : List Text) (r : Root) → (prune_shards touched r).entries ≡ r.entries
unfolding prune_shards
prune_keeps touched r = refl

-- The answer of a rotation with a cap is the number of entries that are in the root after it,
-- whichever deletions fail, where no path stands twice in the root.
pub rotate_count :
    (removable : EntryDir → Bool) (max_entries : ℕ) (r : Root)
    → 0 < max_entries
    → Distinct r.entries
    → (rotate_capture_dir removable max_entries r).0
      ≡ length (rotate_capture_dir removable max_entries r).1.entries
unfolding rotate_capture_dir prune_shards
rotate_count removable max_entries r h d = ground (
  arith,
  sweep_count removable (oldest max_entries r.entries) (unswept r)
      (oldest-Once max_entries r.entries d),
)

-- Where every deletion succeeds, what was above the cap is at the cap, and the rest as it was.
pub rotate_all :
    (removable : EntryDir → Bool) (max_entries : ℕ) (r : Root)
    → 0 < max_entries
    → ((e : EntryDir) → removable e ≡ true)
    → (rotate_capture_dir removable max_entries r).0 ≡ min max_entries (length r.entries)
unfolding rotate_capture_dir
rotate_all removable max_entries r h all_go = ground (
  arith,
  sweep_all removable (oldest max_entries r.entries) (unswept r) all_go,
  length-oldest max_entries r.entries,
)
