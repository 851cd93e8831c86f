-- ===== src/Prelude/Sort.antt =====
-- `sort_unstable` on numbers, and the element at a position of the sorted list, found by counting.
use ostk_cache.Prelude.{
  ℕ, zero, suc, ◌+◌, ◌≤◌, ◌<◌, ◌≡◌, ◌↔◌, refl, List, [], ◌∷◌, arith, ltb, leb, if◌then◌else◌,
  length, get_or, All,
}

insert : ℕ → List ℕ → List ℕ
insert x [] = x ∷ []
insert x (y ∷ ys) = if leb x y then x ∷ y ∷ ys else y ∷ insert x ys

unfoldable pub sort : List ℕ → List ℕ
unfolding insert
sort [] = []
sort (x ∷ xs) = insert x (sort xs)

-- How many elements are below the bound.
unfoldable pub count_below : ℕ → List ℕ → ℕ
count_below b [] = 0
count_below b (x ∷ xs) = (if ltb x b then 1 else 0) + count_below b xs

abbrev pub IsSorted : List ℕ → Type 0
IsSorted [] = Unit
IsSorted (x ∷ xs) = All (λ y. x ≤ y) xs × IsSorted xs

All-le_trans : (x y : ℕ) (ys : List ℕ) → x ≤ y → All (λ z. y ≤ z) ys → All (λ z. x ≤ z) ys
All-le_trans x y [] h a = tt
All-le_trans x y (z ∷ zs) h a = (omega arith, All-le_trans x y zs h a.1)

All-insert : (b x : ℕ) (ys : List ℕ) → b ≤ x → All (λ z. b ≤ z) ys → All (λ z. b ≤ z) (insert x ys)
unfolding insert
All-insert b x [] h a = (h, tt)
All-insert b x (y ∷ ys) h a = ground (arith, All-insert b x ys h)

insert-IsSorted : (x : ℕ) (ys : List ℕ) → IsSorted ys → IsSorted (insert x ys)
unfolding insert
insert-IsSorted x [] s = (tt, tt)
insert-IsSorted x (y ∷ ys) s =
    ground (arith, All-le_trans x y ys, All-insert y x ys, insert-IsSorted x ys)

pub sort-IsSorted : (xs : List ℕ) → IsSorted (sort xs)
unfolding sort
sort-IsSorted [] = tt
sort-IsSorted (x ∷ xs) = insert-IsSorted x (sort xs) (sort-IsSorted xs)

count_below-insert :
    (b x : ℕ) (ys : List ℕ)
    → count_below b (insert x ys) ≡ (if ltb x b then 1 else 0) + count_below b ys
unfolding insert count_below
count_below-insert b x [] = refl
count_below-insert b x (y ∷ ys) = ground (arith, count_below-insert b x ys)

-- Sorting keeps how many elements are below each bound.
pub count_below-sort : (b : ℕ) (xs : List ℕ) → count_below b (sort xs) ≡ count_below b xs
unfolding sort count_below
count_below-sort b [] = refl
count_below-sort b (x ∷ xs) =
    ground (arith, count_below-insert b x (sort xs), count_below-sort b xs)

length-insert : (x : ℕ) (ys : List ℕ) → length (insert x ys) ≡ suc (length ys)
unfolding insert
length-insert x [] = refl
length-insert x (y ∷ ys) = ground (arith, length-insert x ys)

pub length-sort : (xs : List ℕ) → length (sort xs) ≡ length xs
unfolding sort
length-sort [] = refl
length-sort (x ∷ xs) = ground (arith, length-insert x (sort xs), length-sort xs)

count_below-zero : (b : ℕ) (ys : List ℕ) → All (λ z. b ≤ z) ys → count_below b ys ≡ 0
unfolding count_below
count_below-zero b [] a = refl
count_below-zero b (y ∷ ys) a = ground (arith, count_below-zero b ys)

-- In a sorted list the element at position `k` is below `b` exactly when more than `k` elements are.
get_or-lt_iff :
    (b k : ℕ) (ys : List ℕ)
    → IsSorted ys
    → k < length ys
    → (get_or ys k 0 < b) ↔ (k < count_below b ys)
unfolding count_below
get_or-lt_iff b k [] s h = absurd (omega arith)
get_or-lt_iff b zero (y ∷ ys) s h = ground (arith, count_below-zero b ys, All-le_trans b y ys)
get_or-lt_iff b (suc k) (y ∷ ys) s h =
    ground (arith, get_or-lt_iff b k ys, count_below-zero b ys, All-le_trans b y ys)

pub get_or-sort-lt_iff :
    (b k : ℕ) (xs : List ℕ) → k < length xs → (get_or (sort xs) k 0 < b) ↔ (k < count_below b xs)
get_or-sort-lt_iff b k xs h =
    ground
      (arith, get_or-lt_iff b k (sort xs) (sort-IsSorted xs), count_below-sort b xs, length-sort xs)
