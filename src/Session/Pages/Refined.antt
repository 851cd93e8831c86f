-- ===== src/Session/Pages/Refined.antt =====
-- Runs of the page table and of its specification.
use ostk_cache.Prelude.{List, [], ◌∷◌, Option, none, some, Text, true}
use ostk_cache.Session.Pages.{
  States, Page, PageMap, lookup_page, new_page, store, load, pin, evict, release, restore,
}
use ostk_cache.Session.Pages.Table.{on_some, Spec, put, alter, without}

-- A call of the table; `storing` and `loading` come with the time.
pub data Op : Type 0 where
  storing : Text → Text → Text → Text → Op
  loading : Text → Text → Text → Op
  pinning evicting releasing restoring : Text → Text → Op

module _ (S : States) where
  abbrev some_page : Page S × PageMap S → Option (Page S) × PageMap S
  some_page (p, pages) = (some p, pages)

  -- The page that a call answers, if it answers one, and the table.
  abbrev pub step : Op → PageMap S → Option (Page S) × PageMap S
  step (storing now name content ws) pages = some_page (store S now name content ws pages)
  step (loading now name ws) pages = load S now name ws pages
  step (pinning name ws) pages = (none, pin S name ws pages)
  step (evicting name ws) pages = (none, evict S name ws pages)
  step (releasing name ws) pages = (none, release S name ws pages)
  step (restoring name ws) pages = restore S name ws pages

  abbrev pub touched : Text → Page S → Page S
  touched now p = record p { last_accessed = now }

  abbrev pub heated : Page S → Page S
  heated p = record p { state = S.hot }

  -- What a call does to the pages by their names.
  abbrev pub spec_step : Op → Spec S → Option (Page S) × Spec S
  spec_step (storing now name content ws) m =
      (some (new_page S now name content), put S (ws, name) (new_page S now name content) m)
  spec_step (loading now name ws) m =
      (on_some (touched now) (m (ws, name)), alter S (ws, name) (touched now) m)
  spec_step (pinning name ws) m = (none, alter S (ws, name) (λ p. record p { pinned = true }) m)
  spec_step (evicting name ws) m = (none, without S (ws, name) m)
  spec_step (releasing name ws) m = (none, alter S (ws, name) (λ p. record p { state = S.warm }) m)
  spec_step (restoring name ws) m = (on_some heated (m (ws, name)), alter S (ws, name) heated m)

  abbrev pub answers_of : List Op → PageMap S → List (Option (Page S))
  answers_of [] pages = []
  answers_of (op ∷ ops) pages = (step op pages).0 ∷ answers_of ops (step op pages).1

  abbrev pub spec_answers : List Op → Spec S → List (Option (Page S))
  spec_answers [] m = []
  spec_answers (op ∷ ops) m = (spec_step op m).0 ∷ spec_answers ops (spec_step op m).1

  abbrev pub pages_of : PageMap S → Spec S
  pages_of pages k = lookup_page S k pages
