-- ===== src/Session/Pages/Table.antt =====
-- The page table against a function from workspaces and names to pages.
use ostk_cache.Prelude.{
  ◌≡◌, refl, ap, subst, ◌∙◌, Bool, true, false, [], ◌∷◌, Option, none, some, retain, eqb_iff, arith,
  Bool-cases, inl, inr, ◌↔◌, if◌then◌else◌,
}
use ostk_cache.Session.Pages.{
  States, Key, same_page, Page, PageMap, lookup_page, insert_page, update_page, remove_page,
}

same_page_iff : (a b : Key) → (same_page a b ≡ true) ↔ (a ≡ b)
unfolding same_page
same_page_iff (w, n) (v, m) = (
  (λ h.
      let x : w ≡ v = (eqb_iff w v).0 (ground arith) in
      let y : n ≡ m = (eqb_iff n m).0 (ground arith) in cc (x, y)),
  (λ e. ground (arith, eqb_iff w v, eqb_iff n m)),
)

pub same_page_refl : (a : Key) → same_page a a ≡ true
same_page_refl a = (same_page_iff a a).1 refl

if_same :
    {A : Type 0} (b : Bool) (x y z : A)
    → (if b then x else z) ≡ (if b then x else if b then y else z)
if_same true x y z = refl
if_same false x y z = refl

if_both : {A : Type 0} (b : Bool) (x : A) → x ≡ (if b then x else x)
if_both true x = refl
if_both false x = refl

if_none :
    {A : Type 0} (b : Bool) (x : A) (o : Option A)
    → (if b then none else o) ≡ (if b then none else if b then some x else o)
if_none true x o = refl
if_none false x o = refl

abbrev pub on_some : {A : Type 0} → (A → A) → Option A → Option A
on_some f none = none
on_some f (some x) = some (f x)

if_on :
    {A : Type 0} (b : Bool) (f : A → A) (x : A) (o : Option A)
    → (if b then some (f x) else o)
      ≡ (if b then on_some f (if b then some x else o) else if b then some x else o)
if_on true f x o = refl
if_on false f x o = refl

module _ (S : States) where
  -- The page of a name, in a function: set, changed, taken out.
  abbrev pub Spec : Type 0
  Spec = Key → Option (Page S)

  abbrev pub put : Key → Page S → Spec → Spec
  put k q m j = if same_page k j then some q else m j

  abbrev pub alter : Key → (Page S → Page S) → Spec → Spec
  alter k f m j = if same_page k j then on_some f (m j) else m j

  abbrev pub without : Key → Spec → Spec
  without k m j = if same_page k j then none else m j

  pub lookup-insert :
      (j k : Key) (q : Page S) (pages : PageMap S)
      → lookup_page S j (insert_page S k q pages) ≡ put k q (λ i. lookup_page S i pages) j
  unfolding lookup_page insert_page
  lookup-insert j k q [] = refl
  lookup-insert j k q ((i, p) ∷ pages) = elim (Bool-cases (same_page i k)) [
    | inl same ↦
        let e : i ≡ k = (same_page_iff i k).0 same in
        rw (same, e) (if_same (same_page k j) (some q) (some p) (lookup_page S j pages))
    | inr other ↦ elim (Bool-cases (same_page k j)) [
      | inl found ↦
          let e : k ≡ j = (same_page_iff k j).0 found in
          let n : same_page i j ≡ false = subst (λ x. same_page i x ≡ false) e other in
          rw (other, found, n) (lookup-insert j k q pages ∙ (rw found refl))
      | inr missed ↦
          rw (other, missed)
            (ap (λ (o : Option (Page S)). if same_page i j then some p else o)
              (lookup-insert j k q pages ∙ (rw missed refl)))
    ]
  ]

  pub lookup-update :
      (j k : Key) (f : Page S → Page S) (pages : PageMap S)
      → lookup_page S j (update_page S k f pages) ≡ alter k f (λ i. lookup_page S i pages) j
  unfolding lookup_page update_page
  lookup-update j k f [] = if_both (same_page k j) none
  lookup-update j k f ((i, p) ∷ pages) = elim (Bool-cases (same_page i k)) [
    | inl same ↦
        let e : i ≡ k = (same_page_iff i k).0 same in
        rw (same, e) (if_on (same_page k j) f p (lookup_page S j pages))
    | inr other ↦ elim (Bool-cases (same_page k j)) [
      | inl found ↦
          let e : k ≡ j = (same_page_iff k j).0 found in
          let n : same_page i j ≡ false = subst (λ x. same_page i x ≡ false) e other in
          rw (other, found, n) (lookup-update j k f pages ∙ (rw found refl))
      | inr missed ↦
          rw (other, missed)
            (ap (λ (o : Option (Page S)). if same_page i j then some p else o)
              (lookup-update j k f pages ∙ (rw missed refl)))
    ]
  ]

  pub lookup-remove :
      (j k : Key) (pages : PageMap S)
      → lookup_page S j (remove_page S k pages) ≡ without k (λ i. lookup_page S i pages) j
  unfolding lookup_page remove_page retain
  lookup-remove j k [] = if_both (same_page k j) none
  lookup-remove j k ((i, p) ∷ pages) = elim (Bool-cases (same_page i k)) [
    | inl same ↦
        let e : i ≡ k = (same_page_iff i k).0 same in
        rw (same, e) (lookup-remove j k pages ∙ if_none (same_page k j) p (lookup_page S j pages))
    | inr other ↦ elim (Bool-cases (same_page k j)) [
      | inl found ↦
          let e : k ≡ j = (same_page_iff k j).0 found in
          let n : same_page i j ≡ false = subst (λ x. same_page i x ≡ false) e other in
          rw (other, found, n) (lookup-remove j k pages ∙ (rw found refl))
      | inr missed ↦
          rw (other, missed)
            (ap (λ (o : Option (Page S)). if same_page i j then some p else o)
              (lookup-remove j k pages ∙ (rw missed refl)))
    ]
  ]
