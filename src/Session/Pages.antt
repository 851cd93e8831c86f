-- ===== src/Session/Pages.antt =====
-- The page table of src/lib.rs. `Page` and `PageState` are of the crate ostk_page: the record has the
-- fields that `store` fills, and the states are a parameter, of which two are named. The task that
-- `store` spawns writes a file and is left out. A timestamp is an argument.
pub mod Table
pub mod Refined
use ostk_cache.Prelude.{
  ℕ, ◌/◌, ◌==◌, Bool, true, false, ◌&&◌, not, List, [], ◌∷◌, Option, none, some, Text, eqb, length,
  retain, map, if◌then◌else◌,
}

pub record States : Type 1 where
  pub PageState : Type 0
  pub hot : PageState
  pub warm : PageState
  pub same_state : PageState → PageState → Bool

-- A workspace, and the name of a page.
abbrev pub Key : Type 0
Key = Text × Text

unfoldable pub same_page : Key → Key → Bool
unfolding eqb
same_page (w, n) (v, m) = eqb w v && eqb n m

module _ (S : States) where
  pub record Page : Type 0 where
    pub name : Text
    pub file_id : Text
    pub tokens : ℕ
    pub stored_at : Text
    pub last_accessed : Text
    pub state : S.PageState
    pub pinned : Bool
    pub owner : Text
    pub shared_with : List Text

  abbrev pub PageMap : Type 0
  PageMap = List (Key × Page)

  unfoldable pub lookup_page : Key → PageMap → Option Page
  unfolding same_page
  lookup_page k [] = none
  lookup_page k ((j, p) ∷ pages) = if same_page j k then some p else lookup_page k pages

  -- `HashMap::insert`
  unfoldable pub insert_page : Key → Page → PageMap → PageMap
  unfolding same_page
  insert_page k q [] = (k, q) ∷ []
  insert_page k q ((j, p) ∷ pages) =
      if same_page j k then (j, q) ∷ pages else (j, p) ∷ insert_page k q pages

  -- A write through `get_mut`.
  unfoldable pub update_page : Key → (Page → Page) → PageMap → PageMap
  unfolding same_page
  update_page k f [] = []
  update_page k f ((j, p) ∷ pages) =
      if same_page j k then (j, f p) ∷ pages else (j, p) ∷ update_page k f pages

  -- `HashMap::remove`, whose keys are different.
  unfoldable pub remove_page : Key → PageMap → PageMap
  unfolding same_page
  remove_page k pages = retain (λ e. not (same_page e.0 k)) pages

  abbrev pub new_page : Text → Text → Text → Page
  new_page now name content = record {
    name = name;
    file_id = [];
    tokens = length content / 4;
    stored_at = now;
    last_accessed = now;
    state = S.hot;
    pinned = false;
    owner = [];
    shared_with = [];
  }

  unfoldable pub store : Text → Text → Text → Text → PageMap → Page × PageMap
  unfolding insert_page
  store now name content ws pages =
      (new_page now name content, insert_page (ws, name) (new_page now name content) pages)

  unfoldable pub load : Text → Text → Text → PageMap → Option Page × PageMap
  unfolding update_page lookup_page
  load now name ws pages =
      let pages' = update_page (ws, name) (λ p. record p { last_accessed = now }) pages in
      (lookup_page (ws, name) pages', pages')

  unfoldable pub pin : Text → Text → PageMap → PageMap
  unfolding update_page
  pin name ws pages = update_page (ws, name) (λ p. record p { pinned = true }) pages

  unfoldable pub evict : Text → Text → PageMap → PageMap
  unfolding remove_page
  evict name ws pages = remove_page (ws, name) pages

  unfoldable pub release : Text → Text → PageMap → PageMap
  unfolding update_page
  release name ws pages = update_page (ws, name) (λ p. record p { state = S.warm }) pages

  unfoldable pub restore : Text → Text → PageMap → Option Page × PageMap
  unfolding update_page lookup_page
  restore name ws pages =
      let pages' = update_page (ws, name) (λ p. record p { state = S.hot }) pages in
      (lookup_page (ws, name) pages', pages')

  -- `none` asks for every state.
  unfoldable pub is_listed : Text → Option S.PageState → Key × Page → Bool
  unfolding eqb
  is_listed ws none ((w, n), p) = eqb w ws
  is_listed ws (some s) ((w, n), p) = eqb w ws && S.same_state p.state s

  unfoldable pub list_pages : Text → Option S.PageState → PageMap → List Page
  unfolding is_listed
  list_pages ws state pages = map (λ e. e.1) (retain (is_listed ws state) pages)
