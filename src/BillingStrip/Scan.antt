-- ===== src/BillingStrip/Scan.antt =====
-- The loop of src/billing_strip.rs against a description of cutting that mentions no loop.
use ostk_cache.Prelude.{
  ℕ, zero, suc, ◌+◌, ◌*◌, ◌≤◌, ◌<◌, ◌≡◌, ◌≢◌, refl, ap, ◌∙◌, sym, true, false, [], ◌∷◌, ◌++◌,
  Option, none, some, Text, arith, length, length-append, append_assoc, append-nil, Bool-cases,
  Option-cases, subst, if◌then◌else◌, ◌==◌, inl, inr, ltb, ltb→lt,
}
use ostk_cache.BillingStrip.{token_at, scan, strip_cch_tokens_in_str}
use ostk_cache.BillingStrip.Token.{IsToken, token_at_sound, token_at_complete, token_length}

-- `Strips s out n`: reading `s` from the left and cutting each token where one starts leaves
-- `out`, after `n` cuts.
pub data Strips : Text → Text → ℕ → Type 0 where
  stop : Strips [] [] 0
  keep :
      {c : ℕ} {cs out : Text} {n : ℕ}
      → ((t rest : Text) → IsToken t → c ∷ cs ≢ t ++ rest)
      → Strips cs out n
      → Strips (c ∷ cs) (c ∷ out) n
  cut :
      {s t rest out : Text} {n : ℕ}
      → IsToken t
      → s ≡ t ++ rest
      → Strips rest out n
      → Strips s out (suc n)

pub no_token :
    (c : ℕ) (cs : Text)
    → token_at (c ∷ cs) ≡ none
    → (t rest : Text) → IsToken t
    → c ∷ cs ≢ t ++ rest
no_token c cs e t rest k eq = cc (token_at_complete t rest k, ap token_at eq)

-- A text shorter than a token has none.
no_room :
    (c : ℕ) (cs : Text) → length (c ∷ cs) < 4 → (t rest : Text) → IsToken t → c ∷ cs ≢ t ++ rest
no_room c cs h t rest k eq =
    omega (arith, ap (length {0}) eq, length-append t rest, token_length t k)

short-Strips : (s : Text) → length s < 4 → Strips s s 0
short-Strips [] h = stop
short-Strips (c ∷ cs) h = keep (no_room c cs h) (short-Strips cs (omega arith))

-- What `scan` has made, from any point of the loop: what was out, what was pending, and the rest
-- stripped.
record Scanned (s before : Text) (count : ℕ) (r : Text × ℕ) : Type 0 where
  out : Text
  cuts : ℕ
  strips : Strips s out cuts
  text_is : r.0 ≡ before ++ out
  count_is : r.1 ≡ count + cuts

Scanned-stop :
    (s pending out : Text) (count : ℕ)
    → Strips s s 0
    → Scanned s (out ++ pending) count (out ++ (pending ++ s), count)
Scanned-stop s pending out count k = record {
  out = s;
  cuts = 0;
  strips = k;
  text_is = sym (append_assoc out pending s);
  count_is = omega arith;
}

Scanned-cut :
    (s t rest before : Text) (count : ℕ) (r : Text × ℕ)
    → IsToken t
    → s ≡ t ++ rest
    → Scanned rest (before ++ []) (count + 1) r
    → Scanned s before count r
Scanned-cut s t rest before count r k e x = record {
  out = x.out;
  cuts = suc x.cuts;
  strips = cut k e x.strips;
  text_is = x.text_is ∙ rw append-nil;
  count_is = omega (arith, x.count_is);
}

Scanned-keep :
    (c : ℕ) (cs pending out : Text) (count : ℕ) (r : Text × ℕ)
    → token_at (c ∷ cs) ≡ none
    → Scanned cs (out ++ (pending ++ c ∷ [])) count r
    → Scanned (c ∷ cs) (out ++ pending) count r
Scanned-keep c cs pending out count r e x = record {
  out = c ∷ x.out;
  cuts = x.cuts;
  strips = keep (no_token c cs e) x.strips;
  text_is = x.text_is ∙ simp append_assoc;
  count_is = x.count_is;
}

scan_short :
    (fuel : ℕ) (rest pending out : Text) (count : ℕ)
    → ltb (length rest) 4 ≡ true
    → scan (suc fuel) rest pending out count ≡ (out ++ (pending ++ rest), count)
unfolding scan
scan_short fuel rest pending out count h = ground arith

scan_cut :
    (fuel : ℕ) (rest after pending out : Text) (count : ℕ)
    → ltb (length rest) 4 ≡ false
    → token_at rest ≡ some after
    → scan (suc fuel) rest pending out count ≡ scan fuel after [] (out ++ pending) (count + 1)
unfolding scan
scan_cut fuel rest after pending out count h e = ground arith

scan_keep :
    (fuel c : ℕ) (cs pending out : Text) (count : ℕ)
    → ltb (length (c ∷ cs)) 4 ≡ false
    → token_at (c ∷ cs) ≡ none
    → scan (suc fuel) (c ∷ cs) pending out count ≡ scan fuel cs (pending ++ c ∷ []) out count
unfolding scan
scan_keep fuel c cs pending out count h e = ground arith

scan-Scanned :
    (fuel : ℕ) (rest pending out : Text) (count : ℕ)
    → length rest ≤ fuel
    → Scanned rest (out ++ pending) count (scan fuel rest pending out count)
scan-Scanned zero [] pending out count h = unfold scan in Scanned-stop [] pending out count stop
scan-Scanned zero (c ∷ cs) pending out count h = absurd (omega arith)
scan-Scanned (suc fuel) [] pending out count h =
    rw (scan_short fuel [] pending out count refl) (Scanned-stop [] pending out count stop)
scan-Scanned (suc fuel) (c ∷ cs) pending out count h = elim (Bool-cases (ltb (length (c ∷ cs)) 4)) [
  | inl short ↦
      rw (scan_short fuel (c ∷ cs) pending out count short)
        (Scanned-stop (c ∷ cs) pending out count (short-Strips (c ∷ cs) (ltb→lt _ _ short)))
  | inr long ↦ elim (Option-cases (token_at (c ∷ cs))) [
    | inl e ↦ rw (scan_keep fuel c cs pending out count long e) (
        Scanned-keep c cs pending out count _ e
          (scan-Scanned fuel cs (pending ++ c ∷ []) out count (omega arith)))
    | inr (after, e) ↦
        let (t, k, eq) = token_at_sound (c ∷ cs) after e in
        rw (scan_cut fuel (c ∷ cs) after pending out count long e) (
          Scanned-cut (c ∷ cs) t after (out ++ pending) count _ k eq (
            scan-Scanned fuel after [] (out ++ pending) (count + 1)
              (omega (arith, ap (length {0}) eq, length-append t after, token_length t k))))
  ]
]

-- What a result of the strip says of the text.
abbrev pub Describes : Text → Option (Text × ℕ) → Type 0
Describes s none = Strips s s 0
Describes s (some (out, n)) = Strips s out n × (0 < n)

none_cut : {s out : Text} {n : ℕ} → Strips s out n → n ≡ 0 → Strips s s 0
none_cut stop e = stop
none_cut (keep h k) e = keep h (none_cut k e)
none_cut (cut k eq r) e = absurd (omega arith)

Strips-zero : {s out : Text} {n : ℕ} → Strips s out n → n ≡ 0 → s ≡ out
Strips-zero stop e = refl
Strips-zero (keep {c} h k) e = ap (◌∷◌ c) (Strips-zero k e)
Strips-zero (cut k eq r) e = absurd (omega arith)

Scanned-Describes :
    (s text : Text) (count : ℕ)
    → Scanned s [] 0 (text, count)
    → Describes s (if count == 0 then none else some (text, count))
Scanned-Describes s text count x = elim (Bool-cases (count == 0)) [
  | inl z ↦ rw z (none_cut x.strips (ground arith))
  | inr p ↦
      let e : x.cuts ≡ count = omega (arith, x.count_is) in
      rw p (subst (λ n. Strips s text n) e (rw x.text_is x.strips), ground arith)
]

-- The strip of any text is what cutting tokens from the left gives: with no token cut it returns
-- nothing and the text has no token to cut, and otherwise the text that is left and the positive
-- number of cuts.
pub strip_tokens-Describes : (s : Text) → Describes s (strip_cch_tokens_in_str s)
unfolding strip_cch_tokens_in_str
strip_tokens-Describes s = Scanned-Describes s _ _ (scan-Scanned (length s) s [] [] 0 (omega arith))

module _ (s : Text) where
  token_unique :
      (t rest t' rest' : Text)
      → IsToken t
      → IsToken t'
      → s ≡ t ++ rest
      → s ≡ t' ++ rest'
      → rest ≡ rest'
  token_unique t rest t' rest' k k' e e' =
      cc (token_at_complete t rest k, token_at_complete t' rest' k', ap token_at e, ap token_at e')

-- Cutting from the left has one result.
pub Strips-unique :
    {s out out' : Text} {n n' : ℕ} → Strips s out n → Strips s out' n' → (out ≡ out') × (n ≡ n')
Strips-unique stop stop = (refl, refl)
Strips-unique stop (cut {t = t} {rest = rest} k e r) =
    absurd (omega (arith, ap (length {0}) e, length-append t rest, token_length t k))
Strips-unique (cut {t = t} {rest = rest} k e r) stop =
    absurd (omega (arith, ap (length {0}) e, length-append t rest, token_length t k))
Strips-unique (keep {c} h k) (keep h' k') = let u = Strips-unique k k' in (ap (◌∷◌ c) u.0, u.1)
Strips-unique (keep h k) (cut {t = t} {rest = rest} k' e r) = absurd (h t rest k' e)
Strips-unique (cut {t = t} {rest = rest} k e r) (keep h k') = absurd (h t rest k e)
Strips-unique (cut {s} {t} {rest} k e r)
      (cut {t = t'} {rest = rest'} {out = o'} {n = m'} k' e' r') =
    let u =
      Strips-unique r
        (subst (λ x. Strips x o' m') (sym (token_unique s t rest t' rest' k k' e e')) r') in
    (u.0, ap suc u.1)

-- A cut text is shorter by at least six bytes for each cut.
pub Strips-length : {s out : Text} {n : ℕ} → Strips s out n → length out + 6 * n ≤ length s
Strips-length stop = omega arith
Strips-length (keep h k) = omega (arith, Strips-length k)
Strips-length (cut {t = t} {rest = rest} k eq r) =
    omega (arith, ap (length {0}) eq, length-append t rest, token_length t k, Strips-length r)
