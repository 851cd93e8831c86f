-- ===== src/Json.antt =====
-- `serde_json::Value` and its accessors, as far as the program uses them. The text of a string is
-- the list of its bytes; a key is compared as a whole. A number is a `u64`, or another literal.
-- An object is `BTreeMap`: `insert` replaces a value, or keeps the keys in the order of their bytes.
pub mod Laws
use text.Mathlib.Text.{◌==◌ as str_eq}
use ostk_cache.Prelude.{
  ℕ, suc, ◌+◌, ◌<◌, Bool, true, false, List, [], ◌∷◌, Option, none, some, String, Text, codes, eqb,
  ltb, ◌==◌, ◌&&◌, ◌||◌, if◌then◌else◌, ◌>>=◌, unwrap_or,
}

mutual
  pub data Value : Type 0 where
    null : Value
    bool : Bool → Value
    num : ℕ → Value
    literal : Text → Value
    str : Text → Value
    array : Elements → Value
    object : Entries → Value

  pub data Entries : Type 0 where
    end : Entries
    entry : String → Value → Entries → Entries

  pub data Elements : Type 0 where
    nil : Elements
    cons : Value → Elements → Elements

abbrev pub to_list : Elements → List Value
to_list nil = []
to_list (cons v xs) = v ∷ to_list xs

abbrev pub from_list : List Value → Elements
from_list [] = nil
from_list (v ∷ vs) = cons v (from_list vs)

unfoldable pub lookup : String → Entries → Option Value
lookup k end = none
lookup k (entry j v fs) = if str_eq j k then some v else lookup k fs

-- The order of `String`, by bytes.
less : Text → Text → Bool
less [] [] = false
less [] (y ∷ ys) = true
less (x ∷ xs) [] = false
less (x ∷ xs) (y ∷ ys) = ltb x y || x == y && less xs ys

unfoldable pub insert : String → Value → Entries → Entries
unfolding less
insert k w end = entry k w end
insert k w (entry j v fs) =
    if str_eq j k
    then entry j w fs
    else if less (codes k) (codes j)
    then entry k w (entry j v fs)
    else entry j v (insert k w fs)

-- A write through `get_mut`: the value under the key changes in place.
unfoldable pub modify : String → (Value → Value) → Entries → Entries
modify k f end = end
modify k f (entry j v fs) = if str_eq j k then entry j (f v) fs else entry j v (modify k f fs)

-- `Value::get` with a key.
unfoldable pub get : String → Value → Option Value
unfolding lookup
get k (object fs) = lookup k fs
get k _ = none

unfoldable pub update : String → (Value → Value) → Value → Value
unfolding modify
update k f (object fs) = object (modify k f fs)
update k f v = v

-- `value[k] = w` on an object.
unfoldable pub put : String → Value → Value → Value
unfolding insert
put k w (object fs) = object (insert k w fs)
put k w v = v

abbrev pub as_str : Value → Option Text
as_str (str s) = some s
as_str _ = none

abbrev pub as_u64 : Value → Option ℕ
as_u64 (num n) = some n
as_u64 _ = none

abbrev pub as_bool : Value → Option Bool
as_bool (bool b) = some b
as_bool _ = none

abbrev pub as_array : Value → Option (List Value)
as_array (array xs) = some (to_list xs)
as_array _ = none

abbrev pub is_object : Value → Bool
is_object (object fs) = true
is_object _ = false

-- `v.get(k).and_then(|x| x.as_str())` and its kin.
unfoldable pub get_str : String → Value → Option Text
unfolding get
get_str k v = get k v >>= as_str

unfoldable pub get_u64 : String → Value → Option ℕ
unfolding get
get_u64 k v = get k v >>= as_u64

unfoldable pub get_array : String → Value → Option (List Value)
unfolding get
get_array k v = get k v >>= as_array

-- `v.get(k).and_then(|x| x.as_str()) == Some(s)`
unfoldable pub has_str : String → String → Value → Bool
unfolding get_str eqb
has_str k s v = elim (get_str k v) [ none ↦ false | some t ↦ eqb t (codes s) ]

-- `{"type": "text", "text": s}`
abbrev pub text_block : Text → Value
text_block s = object (entry "text" (str s) (entry "type" (str (codes "text")) end))

-- The list behind `get_mut(k).and_then(as_array_mut)` changes in place.
abbrev on_array : (List Value → List Value) → Value → Value
on_array f (array xs) = array (from_list (f (to_list xs)))
on_array f v = v

unfoldable pub update_array : String → (List Value → List Value) → Value → Value
unfolding update
update_array k f = update k (on_array f)
