-- ===== src/TranscriptTail/Codex/Own.antt =====
-- Which rollout is found.
use ostk_cache.Prelude.{
  ◌≡◌, refl, ap, ◌∙◌, true, false, List, [], ◌∷◌, Option, none, some, Text, eqb_iff, arith, All,
  Bool-cases, Option-cases, inl, inr, ◌↔◌, ◌⊎◌,
}
use ostk_cache.TranscriptTail.Index.{text_lt}
use ostk_cache.TranscriptTail.Codex.{
  Rollout, belongs, codex_rollout_identity, CodexRolloutIdentity, is_rollout_name, better, latest,
  matching, locate_codex_rollout,
}

-- A file that was walked over.
abbrev pub Among : Rollout → List Rollout → Type 0
Among r [] = ⊥
Among r (q ∷ qs) = (r ≡ q) ⊎ Among r qs

text_lt_irrefl : (s : Text) → text_lt s s ≡ false
unfolding text_lt
text_lt_irrefl [] = refl
text_lt_irrefl (c ∷ s) = ground (arith, text_lt_irrefl s)

text_lt_trans : (s t u : Text) → text_lt s t ≡ false → text_lt t u ≡ false → text_lt s u ≡ false
unfolding text_lt
text_lt_trans s t [] h k = refl
text_lt_trans s [] (z ∷ u) h k = cc
text_lt_trans [] (y ∷ t) (z ∷ u) h k = cc
text_lt_trans (x ∷ s) (y ∷ t) (z ∷ u) h k = ground (arith, text_lt_trans s t u)

text_lt_asym : (s t : Text) → text_lt s t ≡ true → text_lt t s ≡ false
unfolding text_lt
text_lt_asym [] [] h = refl
text_lt_asym s [] h = cc
text_lt_asym [] (y ∷ t) h = refl
text_lt_asym (x ∷ s) (y ∷ t) h = ground (arith, text_lt_asym s t)

-- A rollout of the workspace: it is named as one, and its first line gives its identity, in which
-- the working directory is the workspace.
abbrev pub IsOwn : Text → Rollout → Type 0
IsOwn workspace r =
    (is_rollout_name r.file_name ≡ true)
    × ((id : CodexRolloutIdentity) × (codex_rollout_identity r ≡ some id) × (id.cwd ≡ workspace))

-- What the search may answer: no rollout, and then none is the workspace's, or one of the
-- workspace's that no other of them has a greater name than.
abbrev pub Found : Text → List Rollout → Option Rollout → Type 0
Found workspace files none = All (λ q. ¬ IsOwn workspace q) files
Found workspace files (some r) =
    Among r files
    × IsOwn workspace r
    × All (λ q. IsOwn workspace q → text_lt r.file_name q.file_name ≡ false) files

belongs_iff : (workspace : Text) (r : Rollout) → (belongs workspace r ≡ true) ↔ IsOwn workspace r
unfolding belongs
belongs_iff workspace r = elim (Option-cases (codex_rollout_identity r)) [
  | inl missing ↦ ((λ h. absurd (ground arith)), (λ o. ground arith))
  | inr (id, e) ↦ (
    (λ h. (ground arith, (id, e, ground (arith, eqb_iff id.cwd workspace)))),
    (λ o. ground (arith, eqb_iff id.cwd workspace)),
  )
]

belongs-IsOwn : (workspace : Text) (r : Rollout) → belongs workspace r ≡ false → ¬ IsOwn workspace r
belongs-IsOwn workspace r foreign o =
    let own = (belongs_iff workspace r).1 o in absurd (cc (own, foreign))

-- The greatest of some files by name.
abbrev Greatest : List Rollout → Option Rollout → Type 0
Greatest fs none = fs ≡ []
Greatest fs (some r) = Among r fs × All (λ q. text_lt r.file_name q.file_name ≡ false) fs

All-not_less :
    (a b : Text) (fs : List Rollout)
    → text_lt a b ≡ false
    → All (λ q. text_lt b q.file_name ≡ false) fs
    → All (λ q. text_lt a q.file_name ≡ false) fs
All-not_less a b [] h l = tt
All-not_less a b (q ∷ fs) h l = (text_lt_trans a b q.file_name h l.0, All-not_less a b fs h l.1)

better-Greatest :
    (f : Rollout) (fs : List Rollout) (o : Option Rollout)
    → Greatest fs o
    → Greatest (f ∷ fs) (better f o)
unfolding better
better-Greatest f [] none g = (inl refl, (text_lt_irrefl f.file_name, tt))
better-Greatest f (x ∷ fs) none g = absurd (cc g)
better-Greatest f fs (some best) g = elim (Bool-cases (text_lt f.file_name best.file_name)) [
  | inl less ↦ rw less (inr g.0, (text_lt_asym f.file_name best.file_name less, g.1))
  | inr not_less ↦ rw not_less (
    inl refl,
    (text_lt_irrefl f.file_name, All-not_less f.file_name best.file_name fs not_less g.1),
  )
]

latest-Greatest : (fs : List Rollout) → Greatest fs (latest fs)
unfolding latest
latest-Greatest [] = refl
latest-Greatest (f ∷ fs) = better-Greatest f fs (latest fs) (latest-Greatest fs)

module _ (workspace : Text) where
  Among-matching :
      (r : Rollout) (fs : List Rollout)
      → Among r (matching workspace fs)
      → Among r fs × (belongs workspace r ≡ true)
  unfolding matching
  Among-matching r [] h = absurd h
  Among-matching r (f ∷ fs) h = elim (Bool-cases (belongs workspace f)) [
    | inl mine ↦ elim (rw mine at h) [
      | inl e ↦ (inl e, ap (belongs workspace) e ∙ mine)
      | inr later ↦ let a = Among-matching r fs later in (inr a.0, a.1)
    ]
    | inr foreign ↦ let a = Among-matching r fs (rw foreign at h) in (inr a.0, a.1)
  ]

  none-matching :
      (fs : List Rollout) → matching workspace fs ≡ [] → All (λ q. ¬ IsOwn workspace q) fs
  unfolding matching
  none-matching [] h = tt
  none-matching (f ∷ fs) h = elim (Bool-cases (belongs workspace f)) [
    | inl mine ↦ absurd (cc (rw mine at h))
    | inr foreign ↦ (belongs-IsOwn workspace f foreign, none-matching fs (rw foreign at h))
  ]

  All-matching :
      (P : Rollout → Type 0) (fs : List Rollout)
      → All P (matching workspace fs)
      → All (λ q. IsOwn workspace q → P q) fs
  unfolding matching
  All-matching P [] h = tt
  All-matching P (f ∷ fs) h = elim (Bool-cases (belongs workspace f)) [
    | inl mine ↦ let both = rw mine at h in ((λ o. both.0), All-matching P fs both.1)
    | inr foreign ↦
        ((λ o. absurd (belongs-IsOwn workspace f foreign o)), All-matching P fs (rw foreign at h))
  ]

  latest-Found :
      (fs : List Rollout) (o : Option Rollout)
      → Greatest (matching workspace fs) o
      → Found workspace fs o
  latest-Found fs none g = none-matching fs g
  latest-Found fs (some r) g =
      let a = Among-matching r fs g.0 in
      (
        a.0,
        (belongs_iff workspace r).0 a.1,
        All-matching (λ q. text_lt r.file_name q.file_name ≡ false) fs g.1,
      )

  -- The search for a rollout answers none only where none of the files is the workspace's own, and
  -- otherwise one that is, by the name of the file, its identity and the directory in it, and that
  -- no other of the workspace's has a greater name than.
  pub locate-Found :
      (files : List Rollout) → Found workspace files (locate_codex_rollout workspace files)
  unfolding locate_codex_rollout
  locate-Found files =
      latest-Found files (latest (matching workspace files))
        (latest-Greatest (matching workspace files))
