-- ===== src/Json/Laws.antt =====
-- Reads after writes of objects.
use text.Mathlib.Text.{◌==◌ as str_eq}
use text.Mathlib.TextEquality.{eq_iff}
use text.Mathlib.TextPositions.{eq_refl}
use ostk_cache.Prelude.{
  ◌≡◌, ◌≢◌, refl, ap, sym, Bool-cases, Option-cases, inl, inr, codes, eqb, eqb_iff, Bool, true,
  false, List, [], ◌∷◌, Option, none, some, String, arith, if◌then◌else◌, ◌>>=◌, ◌∙◌,
}
use ostk_cache.Json.{
  Value, null, bool, num, literal, str, array, object, Elements, nil, cons, Entries, end, entry,
  to_list, from_list, lookup, insert, modify, get, update, put, get_array, get_str, as_str, has_str,
  as_array, on_array, update_array,
}

pub to_list-from_list : (vs : List Value) → to_list (from_list vs) ≡ vs
to_list-from_list [] = refl
to_list-from_list (v ∷ vs) = ap (◌∷◌ v) (to_list-from_list vs)

pub from_list-to_list : (xs : Elements) → from_list (to_list xs) ≡ xs
from_list-to_list nil = refl
from_list-to_list (cons v xs) = ap (cons v) (from_list-to_list xs)

pub lookup-insert :
    (k j : String) (w : Value) (fs : Entries)
    → lookup j (insert k w fs) ≡ (if str_eq k j then some w else lookup j fs)
unfolding lookup insert
lookup-insert k j w end = refl
lookup-insert k j w (entry i v fs) =
    ground (arith, eq_iff k j, eq_iff i k, eq_iff i j, lookup-insert k j w fs)

abbrev pub map_option : (Value → Value) → Option Value → Option Value
map_option f none = none
map_option f (some v) = some (f v)

pub lookup-modify :
    (k j : String) (f : Value → Value) (fs : Entries)
    → lookup j (modify k f fs) ≡ (if str_eq k j then map_option f (lookup j fs) else lookup j fs)
unfolding lookup modify
lookup-modify k j f end = ground arith
lookup-modify k j f (entry i v fs) =
    ground (arith, eq_iff k j, eq_iff i k, eq_iff i j, lookup-modify k j f fs)

pub get-update :
    (k j : String) (f : Value → Value) (v : Value)
    → get j (update k f v) ≡ (if str_eq k j then map_option f (get j v) else get j v)
unfolding get update
get-update k j f (object fs) = lookup-modify k j f fs
get-update k j f _ = ground arith

pub get-put :
    (k j : String) (w : Value) (fs : Entries)
    → get j (put k w (object fs)) ≡ (if str_eq k j then some w else get j (object fs))
unfolding get put
get-put k j w fs = lookup-insert k j w fs

abbrev pub map_list : (List Value → List Value) → Option (List Value) → Option (List Value)
map_list f none = none
map_list f (some vs) = some (f vs)

as_array-on_array :
    (f : List Value → List Value) (o : Option Value)
    → (map_option (on_array f) o >>= as_array) ≡ map_list f (o >>= as_array)
as_array-on_array f none = refl
as_array-on_array f (some (array xs)) = ap some (to_list-from_list (f (to_list xs)))
as_array-on_array f (some null) = refl
as_array-on_array f (some (bool b)) = refl
as_array-on_array f (some (num n)) = refl
as_array-on_array f (some (literal t)) = refl
as_array-on_array f (some (str s)) = refl
as_array-on_array f (some (object fs)) = refl

-- An array written through `get_mut` is read back.
pub get_array-update_array :
    (k : String) (f : List Value → List Value) (v : Value)
    → get_array k (update_array k f v) ≡ map_list f (get_array k v)
unfolding get_array update_array
get_array-update_array k f v =
    ap (λ (o : Option Value). o >>= as_array) (get-update k k (on_array f) v ∙ rw (eq_refl k))
    ∙ as_array-on_array f (get k v)

-- A write under one key leaves the others.
pub get-update_ne :
    (k j : String) (f : Value → Value) (v : Value) → k ≢ j → get j (update k f v) ≡ get j v
get-update_ne k j f v h = ground (arith, get-update k j f v, eq_iff k j)

pub get-update_array_ne :
    (k j : String) (f : List Value → List Value) (v : Value)
    → k ≢ j
    → get j (update_array k f v) ≡ get j v
unfolding update_array
get-update_array_ne k j f v h = get-update_ne k j (on_array f) v h

-- A write that keeps the value it finds changes nothing.
pub modify_same :
    (k : String) (f : Value → Value) (fs : Entries)
    → ((w : Value) → lookup k fs ≡ some w → f w ≡ w)
    → modify k f fs ≡ fs
unfolding modify lookup
modify_same k f end h = refl
modify_same k f (entry j v fs) h = elim (Bool-cases (str_eq j k)) [
  | inl e ↦ rw e (ap (λ (x : Value). entry j x fs) (h v (rw e)))
  | inr e ↦ rw e (ap (entry j v) (modify_same k f fs (λ w q. h w (rw e q))))
]

pub update_same :
    (k : String) (f : Value → Value) (v : Value)
    → ((w : Value) → get k v ≡ some w → f w ≡ w)
    → update k f v ≡ v
unfolding update get
update_same k f (object fs) h = ap object (modify_same k f fs h)
update_same k f _ h = refl

on_array_same :
    (f : List Value → List Value) (w : Value) (vs : List Value)
    → as_array w ≡ some vs
    → f vs ≡ vs
    → on_array f w ≡ w
on_array_same f (array xs) vs e h =
    let q : to_list xs ≡ vs = cc in
    ap array (ap from_list (ap f q ∙ h ∙ sym q) ∙ from_list-to_list xs)
on_array_same f _ vs e h = refl

pub update_array_same :
    (k : String) (f : List Value → List Value) (v : Value) (vs : List Value)
    → get_array k v ≡ some vs
    → f vs ≡ vs
    → update_array k f v ≡ v
unfolding update_array get_array
update_array_same k f v vs e h =
    update_same k (on_array f) v λ w q. on_array_same f w vs (rw q at e) h

-- A string under a key is one text.
pub has_str_unique :
    (k a b : String) (v : Value) → has_str k a v ≡ true → has_str k b v ≡ true → codes a ≡ codes b
unfolding has_str
has_str_unique k a b v h h' = elim (Option-cases (get k v >>= as_str)) [
  | inl e ↦ absurd (ground arith)
  | inr (t, e) ↦
      let p : eqb t (codes a) ≡ true = ground arith in
      let q : eqb t (codes b) ≡ true = ground arith in
      sym ((eqb_iff t (codes a)).0 p) ∙ (eqb_iff t (codes b)).0 q
]

-- What is read under a key depends on the value there alone.
pub has_str_of_get :
    (k s : String) (v w : Value) → get k v ≡ get k w → has_str k s v ≡ has_str k s w
unfolding has_str
has_str_of_get k s v w e =
    ap
      (λ (o : Option Value). elim (o >>= as_str) as (λ _. Bool) [
        | none ↦ false
        | some t ↦ eqb t (codes s)
      ])
      e

pub get-put_ne : (k j : String) (w v : Value) → k ≢ j → get j (put k w v) ≡ get j v
unfolding get put
get-put_ne k j w (object fs) h = ground (arith, lookup-insert k j w fs, eq_iff k j)
get-put_ne k j w _ h = ground arith

pub get_str_of_get : (k : String) (v w : Value) → get k v ≡ get k w → get_str k v ≡ get_str k w
unfolding get_str
get_str_of_get k v w e = ap (λ (o : Option Value). o >>= as_str) e

pub get_array_of_get :
    (k : String) (v w : Value) → get k v ≡ get k w → get_array k v ≡ get_array k w
unfolding get_array
get_array_of_get k v w e = ap (λ (o : Option Value). o >>= as_array) e
