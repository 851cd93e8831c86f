-- ===== src/UsageTruth/Verbatim.antt =====
-- The streams that the rewriter of src/usage_truth.rs leaves alone.
use ostk_cache.Prelude.{
  ℕ, zero, suc, ◌≡◌, refl, ap, ◌∙◌, false, List, [], ◌∷◌, ◌++◌, map, Text, arith, starts_with, take,
  drop,
}
use ostk_cache.UsageTruth.{Serde, new, contains_subslice, usage_key, rewrite_event}
use ostk_cache.UsageTruth.Stream.{
  joined, forwarded, Framed, trailing, event, Framed-whole, forwarded-Rewritten,
}

starts_with-take :
    (n : ℕ) (w xs : Text) → starts_with w xs ≡ false → starts_with w (take n xs) ≡ false
unfolding starts_with
starts_with-take n [] xs h = absurd (ground arith)
starts_with-take zero (c ∷ w) xs h = refl
starts_with-take (suc n) (c ∷ w) [] h = refl
starts_with-take (suc n) (c ∷ w) (x ∷ xs) h = ground (arith, starts_with-take n w xs)

contains-take :
    (n : ℕ) (xs w : Text) → contains_subslice xs w ≡ false → contains_subslice (take n xs) w ≡ false
unfolding contains_subslice
contains-take zero xs w h = refl
contains-take (suc n) [] w h = refl
contains-take (suc n) (x ∷ xs) w h =
    ground (arith, starts_with-take (suc n) w (x ∷ xs), contains-take n xs w)

contains-drop :
    (n : ℕ) (xs w : Text) → contains_subslice xs w ≡ false → contains_subslice (drop n xs) w ≡ false
unfolding contains_subslice
contains-drop zero xs w h = h
contains-drop (suc n) [] w h = refl
contains-drop (suc n) (x ∷ xs) w h = contains-drop n xs w (ground arith)

module _ (serde : Serde) where
  rewrite_event_lem :
      (est : ℕ) (e : Text) → contains_subslice e usage_key ≡ false → rewrite_event serde est e ≡ e
  unfolding rewrite_event
  rewrite_event_lem est e h = ground arith

  events_same :
      (est : ℕ) (xs : Text) (es : List Text) (rest : Text)
      → Framed xs es rest
      → contains_subslice xs usage_key ≡ false
      → joined (map (rewrite_event serde est) es) ≡ joined es
  events_same est xs _ _ (trailing _ e) h = refl
  events_same est _ _ rest (event xs p es _ e f) h =
      ap (λ t. t ++ joined (map (rewrite_event serde est) es))
        (rewrite_event_lem est (take p xs) (contains-take p xs usage_key h))
      ∙ ap (λ t. take p xs ++ t)
          (events_same est (drop p xs) es rest f (contains-drop p xs usage_key h))

  -- A stream without the bytes `"usage"` is forwarded byte for byte, whatever the chunks it comes in.
  pub forwarded_verbatim :
      (est : ℕ) (chunks : List Text)
      → contains_subslice (joined chunks) usage_key ≡ false
      → forwarded serde (new est) chunks ≡ joined chunks
  forwarded_verbatim est chunks h =
      let r = forwarded-Rewritten serde est chunks in
      r.sent
      ∙ ap (λ t. t ++ r.rest) (events_same est (joined chunks) r.events r.rest r.framed h)
      ∙ Framed-whole (joined chunks) r.events r.rest r.framed
