-- ===== src/Rebuild/SoftCap/Called.antt =====
-- The tools that the messages of a request call, in src/rebuild.rs.
use ostk_cache.Prelude.{
  ◌≡◌, ◌⊎◌, inl, inr, refl, sym, ap, ◌∙◌, true, false, ◌||◌, List, [], ◌∷◌, ◌++◌, none, some, Text,
  arith, eqb, eqb_refl, eqb_iff, Bool-cases, Option-cases,
}
use ostk_cache.Json.{Value, get_str, get_array}
use ostk_cache.Rebuild.Messages.{contains, is_tool_use}
use ostk_cache.Rebuild.SoftCap.{call_names, referenced}

-- A tool call of this name is among the blocks.
pub data BlockCalls (n : Text) : List Value → Type 0 where
  here :
      (b : Value) (bs : List Value)
      → is_tool_use b ≡ true
      → get_str "name" b ≡ some n
      → BlockCalls n (b ∷ bs)
  there : (b : Value) (bs : List Value) → BlockCalls n bs → BlockCalls n (b ∷ bs)

-- A tool call of this name is in the messages.
pub data Called (n : Text) : List Value → Type 0 where
  now :
      (m : Value) (ms bs : List Value)
      → get_array "content" m ≡ some bs
      → BlockCalls n bs
      → Called n (m ∷ ms)
  later : (m : Value) (ms : List Value) → Called n ms → Called n (m ∷ ms)

-- The tools that stay: those without a name, and those that some message calls.
pub data Filtered (ms : List Value) : List Value → List Value → Type 0 where
  done : Filtered ms [] []
  unnamed :
      (t : Value) (ts us : List Value)
      → get_str "name" t ≡ none
      → Filtered ms ts us
      → Filtered ms (t ∷ ts) (t ∷ us)
  called :
      (t : Value) (n : Text) (ts us : List Value)
      → get_str "name" t ≡ some n
      → Called n ms
      → Filtered ms ts us
      → Filtered ms (t ∷ ts) (t ∷ us)
  uncalled :
      (t : Value) (n : Text) (ts us : List Value)
      → get_str "name" t ≡ some n
      → ¬ Called n ms
      → Filtered ms ts us
      → Filtered ms (t ∷ ts) us

contains-append :
    (xs ys : List Text) (n : Text) → contains (xs ++ ys) n ≡ (contains xs n || contains ys n)
unfolding contains
contains-append [] ys n = refl
contains-append (x ∷ xs) ys n = ground (arith, contains-append xs ys n)

contains-head :
    (x n : Text) (xs : List Text) → contains (x ∷ xs) n ≡ true → (x ≡ n) ⊎ (contains xs n ≡ true)
unfolding contains
contains-head x n xs h = elim (Bool-cases (eqb x n)) [
  | inl e ↦ inl ((eqb_iff x n).0 e)
  | inr e ↦ inr (ground arith)
]

contains-first : (n : Text) (xs : List Text) → contains (n ∷ xs) n ≡ true
unfolding contains
contains-first n xs = ground (arith, eqb_refl n)

contains-rest : (x n : Text) (xs : List Text) → contains xs n ≡ true → contains (x ∷ xs) n ≡ true
unfolding contains
contains-rest x n xs h = ground arith

call_names-other :
    (b : Value) (bs : List Value) → is_tool_use b ≡ false → call_names (b ∷ bs) ≡ call_names bs
unfolding call_names
call_names-other b bs h = ground arith

call_names-unnamed :
    (b : Value) (bs : List Value) → get_str "name" b ≡ none → call_names (b ∷ bs) ≡ call_names bs
unfolding call_names
call_names-unnamed b bs h = ground arith

call_names-named :
    (b : Value) (bs : List Value) (n : Text)
    → is_tool_use b ≡ true
    → get_str "name" b ≡ some n
    → call_names (b ∷ bs) ≡ n ∷ call_names bs
unfolding call_names
call_names-named b bs n h e = ground arith

none_called : (n : Text) → contains [] n ≡ false
unfolding contains
none_called n = refl

names-BlockCalls :
    (bs : List Value) (n : Text) → contains (call_names bs) n ≡ true → BlockCalls n bs
unfolding call_names
names-BlockCalls [] n h = absurd (ground (arith, none_called n))
names-BlockCalls (b ∷ bs) n h = elim (Bool-cases (is_tool_use b)) [
  | inr o ↦
      there b bs
        (names-BlockCalls bs n (ap (λ x. contains x n) (sym (call_names-other b bs o)) ∙ h))
  | inl u ↦ elim (Option-cases (get_str "name" b)) [
    | inl e ↦
        there b bs
          (names-BlockCalls bs n (ap (λ x. contains x n) (sym (call_names-unnamed b bs e)) ∙ h))
    | inr (k, e) ↦
        elim (contains-head k n (call_names bs)
          (ap (λ x. contains x n) (sym (call_names-named b bs k u e)) ∙ h)) [
            | inl q ↦ here b bs u (e ∙ ap some q)
            | inr r ↦ there b bs (names-BlockCalls bs n r)
          ]
  ]
]

BlockCalls-names :
    (n : Text) (bs : List Value) → BlockCalls n bs → contains (call_names bs) n ≡ true
BlockCalls-names n _ (here b bs u e) =
    ap (λ x. contains x n) (call_names-named b bs n u e) ∙ contains-first n (call_names bs)
BlockCalls-names n _ (there b bs h) = elim (Bool-cases (is_tool_use b)) [
  | inr o ↦ ap (λ x. contains x n) (call_names-other b bs o) ∙ BlockCalls-names n bs h
  | inl u ↦ elim (Option-cases (get_str "name" b)) [
    | inl e ↦ ap (λ x. contains x n) (call_names-unnamed b bs e) ∙ BlockCalls-names n bs h
    | inr (k, e) ↦
        ap (λ x. contains x n) (call_names-named b bs k u e)
        ∙ contains-rest k n (call_names bs) (BlockCalls-names n bs h)
  ]
]

referenced-plain :
    (m : Value) (ms : List Value)
    → get_array "content" m ≡ none
    → referenced (m ∷ ms) ≡ referenced ms
unfolding referenced
referenced-plain m ms e = ground arith

referenced-blocks :
    (m : Value) (ms bs : List Value)
    → get_array "content" m ≡ some bs
    → referenced (m ∷ ms) ≡ call_names bs ++ referenced ms
unfolding referenced
referenced-blocks m ms bs e = ground arith

pub referenced-Called :
    (ms : List Value) (n : Text) → contains (referenced ms) n ≡ true → Called n ms
unfolding referenced
referenced-Called [] n h = absurd (ground (arith, none_called n))
referenced-Called (m ∷ ms) n h = elim (Option-cases (get_array "content" m)) [
  | inl e ↦
      later m ms
        (referenced-Called ms n (ap (λ x. contains x n) (sym (referenced-plain m ms e)) ∙ h))
  | inr (bs, e) ↦
      let two : (contains (call_names bs) n || contains (referenced ms) n) ≡ true =
        sym (contains-append (call_names bs) (referenced ms) n)
        ∙ ap (λ x. contains x n) (sym (referenced-blocks m ms bs e))
        ∙ h in
      elim (Bool-cases (contains (call_names bs) n)) [
        | inl y ↦ now m ms bs e (names-BlockCalls bs n y)
        | inr y ↦ later m ms (referenced-Called ms n (ground arith))
      ]
]

pub Called-referenced :
    (n : Text) (ms : List Value) → Called n ms → contains (referenced ms) n ≡ true
Called-referenced n _ (now m ms bs e h) =
    ap (λ x. contains x n) (referenced-blocks m ms bs e)
    ∙ contains-append (call_names bs) (referenced ms) n
    ∙ ground (arith, BlockCalls-names n bs h)
Called-referenced n _ (later m ms h) = elim (Option-cases (get_array "content" m)) [
  | inl e ↦ ap (λ x. contains x n) (referenced-plain m ms e) ∙ Called-referenced n ms h
  | inr (bs, e) ↦
      ap (λ x. contains x n) (referenced-blocks m ms bs e)
      ∙ contains-append (call_names bs) (referenced ms) n
      ∙ ground (arith, Called-referenced n ms h)
]
