-- ===== src/Capture/Rotation.antt =====
-- The cap on captures, `rotate_capture_dir` and `RotationState` of
-- crates/ostk-cache-core/src/capture.rs. A root is the directories of entries in the order that
-- reading gives them, each in a shard or at the top, beside the shards. Which deletions succeed is
-- an argument.
pub mod Count
pub mod Newest
pub mod Cap
use ostk_cache.Prelude.{
  ℕ, ◌+◌, ◌-◌, ◌/◌, max, Bool, true, false, not, ◌&&◌, List, [], ◌∷◌, Option, none, some, Text, eqb,
  leb, ltb, ◌==◌, if◌then◌else◌, length, take, any, retain,
}

-- An entry: the shard that it stands in, if any, and its name.
pub record EntryDir : Type 0 where
  pub shard : Option Text
  pub name : Text

pub record Root : Type 0 where
  pub entries : List EntryDir
  pub shards : List Text

same_shard : Option Text → Option Text → Bool
same_shard none none = true
same_shard (some a) (some b) = eqb a b
same_shard _ _ = false

-- Equality of paths.
unfoldable pub same_dir : EntryDir → EntryDir → Bool
unfolding same_shard
same_dir a b = same_shard a.shard b.shard && eqb a.name b.name

-- The order of names, by bytes.
unfoldable pub name_le : Text → Text → Bool
name_le [] t = true
name_le (x ∷ s) [] = false
name_le (x ∷ s) (y ∷ t) = if x == y then name_le s t else ltb x y

unfoldable pub insert_dir : EntryDir → List EntryDir → List EntryDir
insert_dir e [] = e ∷ []
insert_dir e (d ∷ ds) = if name_le e.name d.name then e ∷ d ∷ ds else d ∷ insert_dir e ds

-- `entries.sort_by(…)`, which is stable.
unfoldable pub sort_dirs : List EntryDir → List EntryDir
unfolding insert_dir
sort_dirs [] = []
sort_dirs (e ∷ es) = insert_dir e (sort_dirs es)

-- `remove_dir_all`
unfoldable pub remove_dir : EntryDir → Root → Root
unfolding same_dir
remove_dir e r = record r { entries = retain (λ d. not (same_dir e d)) r.entries }

unfoldable pub touch : Option Text → List Text → List Text
touch none shards = shards
touch (some s) shards = if any (eqb s) shards then shards else s ∷ shards

-- What the loop over the entries to delete has done: the root, how many it deleted, and the shards
-- that it touched.
pub record Swept : Type 0 where
  pub root : Root
  pub deleted : ℕ
  pub touched : List Text

unfoldable pub deleting : EntryDir → Swept → Swept
unfolding remove_dir touch
deleting e s = record {
  root = remove_dir e s.root;
  deleted = s.deleted + 1;
  touched = touch e.shard s.touched;
}

unfoldable pub sweep : (EntryDir → Bool) → List EntryDir → Swept → Swept
unfolding deleting
sweep removable [] s = s
sweep removable (e ∷ es) s = sweep removable es (if removable e then deleting e s else s)

unfoldable pub holds_entry : Text → List EntryDir → Bool
unfolding same_shard
holds_entry s es = any (λ e. same_shard (some s) e.shard) es

-- `remove_dir` on each shard touched refuses one that still holds an entry.
unfoldable pub prune_shards : List Text → Root → Root
unfolding holds_entry
prune_shards touched r = record r {
  shards = retain (λ s. not (any (eqb s) touched && not (holds_entry s r.entries))) r.shards;
}

abbrev pub oldest : ℕ → List EntryDir → List EntryDir
oldest max_entries es = take (length es - max_entries) (sort_dirs es)

abbrev pub unswept : Root → Swept
unswept r = record { root = r; deleted = 0; touched = [] }

-- The number of entries that remain by its answer, and the root.
unfoldable pub rotate_capture_dir : (EntryDir → Bool) → ℕ → Root → ℕ × Root
unfolding sort_dirs sweep prune_shards
rotate_capture_dir removable max_entries r =
    if max_entries == 0
    then (0, r)
    else if leb (length r.entries) max_entries
    then (length r.entries, r)
    else let s = sweep removable (oldest max_entries r.entries) (unswept r) in
      (length r.entries - s.deleted, prune_shards s.touched s.root)

-- `none` is `COUNT_UNKNOWN`.
abbrev pub Estimate : Type 0
Estimate = Option ℕ

abbrev pub slack_of : ℕ → ℕ
slack_of max_entries = max (max_entries / 16) 1

unfoldable pub must_scan : ℕ → Estimate → Bool
must_scan max_entries none = true
must_scan max_entries (some est) = leb (max_entries + slack_of max_entries) (est + 1)

unfoldable pub counted : Estimate → Estimate
counted none = none
counted (some est) = some (est + 1)

abbrev pub rescanned : ℕ × Root → Estimate × Root
rescanned (remaining, r) = (some remaining, r)

-- One entry was written, and is in the root.
unfoldable pub record_and_maybe_rotate : (EntryDir → Bool) → ℕ → Estimate → Root → Estimate × Root
unfolding must_scan counted rotate_capture_dir
record_and_maybe_rotate removable max_entries est r =
    if max_entries == 0
    then (est, r)
    else if must_scan max_entries est
    then rescanned (rotate_capture_dir removable max_entries r)
    else (counted est, r)
