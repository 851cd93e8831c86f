-- ===== src/UsageTruth/Stream.antt =====
-- The stream that the rewriter of src/usage_truth.rs forwards.
use ostk_cache.Prelude.{
  drop-append, take-append, take-append-drop, ℕ, zero, suc, ◌<◌, ◌≡◌, refl, sym, ap, ◌∙◌, List, [],
  ◌∷◌, ◌++◌, append-nil, append_assoc, none, some, Text, arith, length, length-drop, take, drop,
  Option-cases, inl, inr, subst, map,
}
use ostk_cache.UsageTruth.{
  Serde, SseUsageRewriter, find_double_newline, rewrite_event, emit, transform, flush, new,
}
use ostk_cache.UsageTruth.Frames.{find_bound, find_stable}

-- The chunks of a stream, as one text.
abbrev pub joined : List Text → Text
joined [] = []
joined (c ∷ cs) = c ++ joined cs

module _ (serde : Serde) where
  -- What is forwarded of a stream: the output of each chunk, then what is left.
  abbrev pub forwarded : SseUsageRewriter → List Text → Text
  forwarded self [] = (flush serde self).1
  forwarded self (c ∷ cs) = (transform serde self c).1 ++ forwarded (transform serde self c).0 cs

  emit-none :
      (est fuel : ℕ) (xs : Text) → find_double_newline xs ≡ none → emit serde est fuel xs ≡ ([], xs)
  unfolding emit
  emit-none est zero xs h = refl
  emit-none est (suc fuel) xs h = ground arith

  abbrev ahead : Text → Text × Text → Text × Text
  ahead out r = (out ++ r.0, r.1)

  emit-some :
      (est fuel : ℕ) (xs : Text) (p : ℕ)
      → find_double_newline xs ≡ some p
      → emit serde est (suc fuel) xs
        ≡ ahead (rewrite_event serde est (take p xs)) (emit serde est fuel (drop p xs))
  unfolding emit
  emit-some est fuel xs p h = ground arith

  -- Any two numbers of rounds above the length do the same.
  emit_enough :
      (est n m : ℕ) (xs : Text)
      → length xs < n
      → length xs < m
      → emit serde est n xs ≡ emit serde est m xs
  emit_enough est zero m xs h k = absurd (omega (arith, h))
  emit_enough est (suc n) zero xs h k = absurd (omega (arith, k))
  emit_enough est (suc n) (suc m) xs h k = elim (Option-cases (find_double_newline xs)) [
    | inl e ↦ emit-none est (suc n) xs e ∙ sym (emit-none est (suc m) xs e)
    | inr (p, e) ↦
        let b = find_bound xs p e in
        let l = length-drop p xs in
        emit-some est n xs p e
        ∙ ap (ahead (rewrite_event serde est (take p xs))) (
            emit_enough est n m (drop p xs) (omega (arith, l, b.0, b.1, h))
              (omega (arith, l, b.0, b.1, k)))
        ∙ sym (emit-some est m xs p e)
  ]

  -- The loop with enough rounds.
  abbrev full : ℕ → Text → Text × Text
  full est xs = emit serde est (suc (length xs)) xs

  full-some :
      (est : ℕ) (xs : Text) (p : ℕ)
      → find_double_newline xs ≡ some p
      → full est xs ≡ ahead (rewrite_event serde est (take p xs)) (full est (drop p xs))
  full-some est xs p e =
      let b = find_bound xs p e in
      let l = length-drop p xs in
      emit-some est (length xs) xs p e
      ∙ ap (ahead (rewrite_event serde est (take p xs))) (
          emit_enough est (length xs) (suc (length (drop p xs))) (drop p xs)
            (omega (arith, l, b.0, b.1)) (omega arith))

  -- On more bytes: first on those that were there, then on the rest of them and the others.
  full-append :
      (est m : ℕ) (xs ys : Text)
      → length xs < m
      → full est (xs ++ ys) ≡ ahead (full est xs).0 (full est ((full est xs).1 ++ ys))
  full-append est zero xs ys h = absurd (omega (arith, h))
  full-append est (suc m) xs ys h = elim (Option-cases (find_double_newline xs)) [
    | inl e ↦
        subst (λ r. full est (xs ++ ys) ≡ ahead r.0 (full est (r.1 ++ ys)))
          (sym (emit-none est (suc (length xs)) xs e)) refl
    | inr (p, e) ↦
        let b = find_bound xs p e in
        let event = rewrite_event serde est (take p xs) in
        let step : full est (xs ++ ys) ≡ ahead event (full est (drop p xs ++ ys)) =
          full-some est (xs ++ ys) p (find_stable xs ys p e) ∙ λ i.
          ahead (rewrite_event serde est (take-append p xs ys b.1 i))
            (full est (drop-append p xs ys b.1 i)) in
        let rest =
          full-append est m (drop p xs) ys (omega (arith, length-drop p xs, b.0, b.1, h)) in
        subst (λ r. full est (xs ++ ys) ≡ ahead r.0 (full est (r.1 ++ ys)))
          (sym (full-some est xs p e))
          (step
            ∙ ap (ahead event) rest
            ∙ ap (λ t. (t, (full est ((full est (drop p xs)).1 ++ ys)).1))
                (sym (
                  append_assoc event (full est (drop p xs)).0
                    (full est ((full est (drop p xs)).1 ++ ys)).0)))
  ]

  then_forwarded : SseUsageRewriter → List Text → Text × Text → Text
  then_forwarded self cs r = r.0 ++ forwarded (record self { carry = r.1 }) cs

  chunk-full :
      (self : SseUsageRewriter) (c : Text) (cs : List Text)
      → forwarded self (c ∷ cs) ≡ then_forwarded self cs (full self.est_tokens (self.carry ++ c))
  unfolding transform then_forwarded
  chunk-full self c cs = refl

  -- Two chunks, or one: what is forwarded is the same.
  merge_lem :
      (self : SseUsageRewriter) (c d : Text) (cs : List Text)
      → forwarded self (c ∷ d ∷ cs) ≡ forwarded self ((c ++ d) ∷ cs)
  unfolding transform then_forwarded
  merge_lem self c d cs =
      let f = full self.est_tokens (self.carry ++ c) in
      let g = full self.est_tokens (f.1 ++ d) in
      sym (append_assoc f.0 g.0 (forwarded (record self { carry = g.1 }) cs))
      ∙ ap (then_forwarded self cs) (
          sym (
            full-append self.est_tokens (suc (length (self.carry ++ c))) (self.carry ++ c) d
              (omega arith))
          ∙ ap (full self.est_tokens) (append_assoc self.carry c d))

  one_chunk :
      (self : SseUsageRewriter) (c : Text) (cs : List Text)
      → forwarded self (c ∷ cs) ≡ forwarded self (joined (c ∷ cs) ∷ [])
  one_chunk self c [] = ap (λ x. forwarded self (x ∷ [])) (sym (append-nil c))
  one_chunk self c (d ∷ cs) =
      merge_lem self c d cs
      ∙ one_chunk self (c ++ d) cs
      ∙ ap (λ x. forwarded self (x ∷ [])) (append_assoc c d (joined cs))

-- A stream, its complete events in their order, and the bytes after the last of them.
pub data Framed : Text → List Text → Text → Type 0 where
  trailing : (rest : Text) → find_double_newline rest ≡ none → Framed rest [] rest
  event :
      (xs : Text) (p : ℕ) (es : List Text) (rest : Text)
      → find_double_newline xs ≡ some p
      → Framed (drop p xs) es rest
      → Framed xs (take p xs ∷ es) rest

pub Framed-whole :
    (xs : Text) (es : List Text) (rest : Text) → Framed xs es rest → joined es ++ rest ≡ xs
Framed-whole xs _ _ (trailing _ e) = refl
Framed-whole _ _ rest (event xs p es _ e h) =
    append_assoc (take p xs) (joined es) rest
    ∙ ap (λ t. take p xs ++ t) (Framed-whole (drop p xs) es rest h)
    ∙ take-append-drop p xs

-- What the rewriter promises of a stream.
pub record Rewritten (serde : Serde) (est : ℕ) (stream out : Text) : Type 0 where
  pub events : List Text
  pub rest : Text
  pub framed : Framed stream events rest
  pub sent : out ≡ joined (map (rewrite_event serde est) events) ++ rest

module _ (serde : Serde) where
  full-Rewritten :
      (est m : ℕ) (xs : Text)
      → length xs < m
      → Rewritten serde est xs ((emit serde est m xs).0 ++ (emit serde est m xs).1)
  full-Rewritten est zero xs h = absurd (omega (arith, h))
  full-Rewritten est (suc m) xs h = elim (Option-cases (find_double_newline xs)) [
    | inl e ↦
        subst (λ r. Rewritten serde est xs (r.0 ++ r.1)) (sym (emit-none serde est (suc m) xs e))
          (record { events = []; rest = xs; framed = trailing xs e; sent = refl })
    | inr (p, e) ↦
        let b = find_bound xs p e in
        let r = full-Rewritten est m (drop p xs) (omega (arith, length-drop p xs, b.0, b.1, h)) in
        let new = rewrite_event serde est (take p xs) in
        let tail = emit serde est m (drop p xs) in
        subst (λ q. Rewritten serde est xs (q.0 ++ q.1)) (sym (emit-some serde est m xs p e))
          (record {
            events = take p xs ∷ r.events;
            rest = r.rest;
            framed = event xs p r.events r.rest e r.framed;
            sent =
                append_assoc new tail.0 tail.1
                ∙ ap (λ t. new ++ t) r.sent
                ∙ sym (append_assoc new (joined (map (rewrite_event serde est) r.events)) r.rest);
          })
  ]

  -- Whatever the chunks that a stream comes in, what a new rewriter forwards of it is its complete
  -- events in their order, each rewritten as a whole, and then the bytes after the last of them.
  pub forwarded-Rewritten :
      (est : ℕ) (chunks : List Text)
      → Rewritten serde est (joined chunks) (forwarded serde (new est) chunks)
  unfolding transform flush
  forwarded-Rewritten est [] = full-Rewritten est 1 [] (omega arith)
  forwarded-Rewritten est (c ∷ cs) =
      subst (Rewritten serde est (joined (c ∷ cs))) (sym (one_chunk serde (new est) c cs))
        (full-Rewritten est (suc (length (joined (c ∷ cs)))) (joined (c ∷ cs)) (omega arith))
