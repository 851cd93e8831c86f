-- ===== src/Rebuild/Orientation/Once.antt =====
-- The orientation block of src/rebuild.rs goes in once.
use ostk_cache.Prelude.{
  ◌≡◌, ◌≢◌, ◌⊎◌, inl, inr, refl, sym, ap, ◌∙◌, subst, Bool, true, false, List, [], ◌∷◌, ◌++◌,
  Option, none, some, String, str_contains, starts_with, ltb, arith, any, if◌then◌else◌, Bool-cases,
  Option-cases,
}
use text.Mathlib.Text.{◌==◌ as str_eq}
use text.Mathlib.TextEquality.{eq_iff}
use ostk_cache.Json.{
  Value, null, bool, num, literal, str, array, object, Elements, nil, cons, end, entry, to_list,
  from_list, get, get_str, insert, update, text_block,
}
use ostk_cache.Json.Laws.{to_list-from_list, get-update, get-update_ne, lookup-insert}
use ostk_cache.Rebuild.Orientation.{
  CacheControl, kernel_orientation, orientation_header_marker, set_index, has_orientation,
  append_block, new_block, append_kernel_orientation_to_system,
}

-- The system prompt is a list of blocks, one of which has the orientation's heading in its text.
pub record Oriented (v : Value) : Type 0 where
  pub blocks : Elements
  pub system : get "system" v ≡ some (array blocks)
  pub oriented : any has_orientation (to_list blocks) ≡ true

orientation_marked : str_contains kernel_orientation orientation_header_marker ≡ true
unfolding kernel_orientation str_contains starts_with
orientation_marked = refl

any-last :
    (p : Value → Bool) (xs : List Value) (y : Value) → p y ≡ true → any p (xs ++ y ∷ []) ≡ true
unfolding any
any-last p [] y h = ground arith
any-last p (x ∷ xs) y h = ground (arith, any-last p xs y h)

-- A write at a key, where the source does not panic.
set_index-get :
    (k j : String) (w v v' : Value)
    → set_index k w v ≡ some v'
    → get j v' ≡ (if str_eq k j then some w else get j v)
unfolding set_index get insert
set_index-get k j w (object fs) v' h =
    let e : object (insert k w fs) ≡ v' = cc h in ap (get j) (sym e) ∙ lookup-insert k j w fs
set_index-get k j w null v' h =
    let e : object (entry k w end) ≡ v' = cc h in ap (get j) (sym e) ∙ lookup-insert k j w end
set_index-get k j w (bool x) v' h = absurd (ground arith)
set_index-get k j w (num x) v' h = absurd (ground arith)
set_index-get k j w (literal x) v' h = absurd (ground arith)
set_index-get k j w (str x) v' h = absurd (ground arith)
set_index-get k j w (array x) v' h = absurd (ground arith)

-- What an append that says so has done.
record Appended (block v v' : Value) : Type 0 where
  before : List Value
  system : get "system" v' ≡ some (array (from_list (before ++ block ∷ [])))
  others : (j : String) → "system" ≢ j → get j v' ≡ get j v

set_index-Appended :
    (v v' block : Value) (before : List Value)
    → set_index "system" (array (from_list (before ++ block ∷ []))) v ≡ some v'
    → Appended block v v'
set_index-Appended v v' block before h = record {
  before = before;
  system = set_index-get "system" "system" _ v v' h ∙ ground (arith, eq_iff "system" "system");
  others = λ j n. set_index-get "system" j _ v v' h ∙ ground (arith, eq_iff "system" j);
}

update-Appended :
    (v block : Value) (xs : Elements)
    → get "system" v ≡ some (array xs)
    → Appended block v (update "system" (λ _. array (from_list (to_list xs ++ block ∷ []))) v)
update-Appended v block xs e =
    let f = λ (_ : Value). array (from_list (to_list xs ++ block ∷ [])) in
    record {
      before = to_list xs;
      system = get-update "system" "system" f v ∙ ground (arith, eq_iff "system" "system");
      others = λ j n. get-update_ne "system" j f v n;
    }

-- The two ways that an append ends: a block is added, or there is one and nothing changes whatever
-- the block. The third, a panic, is no result.
append_block-ends :
    (v block v' : Value) (b : Bool) (o : Option Value)
    → get "system" v ≡ o
    → append_block v block o ≡ some (v', b)
    → ((b ≡ true) × Appended block v v')
      ⊎ ((b ≡ false) × (v' ≡ v) × ((other : Value) → append_block v other o ≡ some (v, false)))
unfolding append_block
append_block-ends v block v' b none e h =
    elim (Option-cases (set_index "system" (array (cons block nil)) v)) [
      | inl n ↦ absurd (ground arith)
      | inr (w, n) ↦
          let q : set_index "system" (array (cons block nil)) v ≡ some v' = ground arith in
          inl (ground arith, set_index-Appended v v' block [] q)
    ]
append_block-ends v block v' b (some (array xs)) e h =
    elim (Bool-cases (any has_orientation (to_list xs))) [
      | inl a ↦ inr (ground arith, ground arith, λ other. ground arith)
      | inr a ↦
          let q : update "system" (λ _. array (from_list (to_list xs ++ block ∷ []))) v ≡ v' =
            ground arith in
          inl (ground arith, subst (Appended block v) q (update-Appended v block xs e))
    ]
append_block-ends v block v' b (some (str s)) e h =
    elim (Bool-cases (str_contains s orientation_header_marker)) [
      | inl a ↦ inr (ground arith, ground arith, λ other. ground arith)
      | inr a ↦
          elim (Option-cases
            (set_index "system" (array (cons (text_block s) (cons block nil))) v)) [
              | inl n ↦ absurd (ground arith)
              | inr (w, n) ↦
                  let q : set_index "system" (array (cons (text_block s) (cons block nil))) v
                      ≡ some v' =
                    ground arith in
                  inl (ground arith, set_index-Appended v v' block (text_block s ∷ []) q)
            ]
    ]
append_block-ends v block v' b (some null) e h = inr (ground arith, ground arith, λ other. refl)
append_block-ends v block v' b (some (bool x)) e h = inr (ground arith, ground arith, λ other. refl)
append_block-ends v block v' b (some (num x)) e h = inr (ground arith, ground arith, λ other. refl)
append_block-ends v block v' b (some (literal x)) e h =
    inr (ground arith, ground arith, λ other. refl)
append_block-ends v block v' b (some (object x)) e h =
    inr (ground arith, ground arith, λ other. refl)

module _ (api : CacheControl) where
  block_marked : (v : Value) (ttl : String) → has_orientation (new_block api v ttl) ≡ true
  unfolding new_block has_orientation get_str
  block_marked v ttl = elim (Bool-cases (ltb (api.count_fields v) api.limit)) [
    | inl e ↦ rw e orientation_marked
    | inr e ↦ rw e orientation_marked
  ]

  oriented_lem : (v v' : Value) (ttl : String) → Appended (new_block api v ttl) v v' → Oriented v'
  oriented_lem v v' ttl a =
      let block = new_block api v ttl in
      record {
        blocks = from_list (a.before ++ block ∷ []);
        system = a.system;
        oriented =
            ap (any has_orientation) (to_list-from_list (a.before ++ block ∷ []))
            ∙ any-last has_orientation a.before block (block_marked v ttl);
      }

  Oriented-stays :
      (v : Value) (ttl : String)
      → Oriented v
      → append_kernel_orientation_to_system api v ttl ≡ some (v, false)
  unfolding append_kernel_orientation_to_system append_block
  Oriented-stays v ttl o = rw o.system (rw o.oriented refl)

  -- After an append, whether it added a block or not, another changes nothing and says so, whatever
  -- its `ttl`.
  pub append_once :
      (v v' : Value) (b : Bool) (ttl ttl' : String)
      → append_kernel_orientation_to_system api v ttl ≡ some (v', b)
      → append_kernel_orientation_to_system api v' ttl' ≡ some (v', false)
  unfolding append_kernel_orientation_to_system
  append_once v v' b ttl ttl' h =
      elim (append_block-ends v (new_block api v ttl) v' b (get "system" v) refl h) [
        | inl (e, a) ↦ Oriented-stays v' ttl' (oriented_lem v v' ttl a)
        | inr (e, s, k) ↦
            subst (λ w. append_kernel_orientation_to_system api w ttl' ≡ some (w, false)) (sym s)
              (k (new_block api v ttl'))
      ]

  -- An append that says it added a block leaves a system prompt with the orientation in it, and no
  -- append changes what stands under another key.
  pub append-Oriented :
      (v v' : Value) (b : Bool) (ttl k : String)
      → append_kernel_orientation_to_system api v ttl ≡ some (v', b)
      → "system" ≢ k
      → ((b ≡ false) ⊎ Oriented v') × (get k v' ≡ get k v)
  unfolding append_kernel_orientation_to_system
  append-Oriented v v' b ttl k h n =
      elim (append_block-ends v (new_block api v ttl) v' b (get "system" v) refl h) [
        | inl (e, a) ↦ (inr (oriented_lem v v' ttl a), a.others k n)
        | inr (e, s, r) ↦ (inl e, ap (get k) s)
      ]
