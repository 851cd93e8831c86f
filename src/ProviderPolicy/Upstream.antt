-- ===== src/ProviderPolicy/Upstream.antt =====
-- The host that src/provider_policy.rs reads off an upstream.
use ostk_cache.Prelude.{
  ℕ, ◌≡◌, refl, ap, ◌∙◌, Bool, true, false, not, [], ◌∷◌, ◌++◌, Option, none, some, Text, codes,
  arith, starts_with, ◌==◌, Option-cases, inl, inr, ◌>>=◌,
}
use ostk_cache.ReminderStrip.{find}
use ostk_cache.ProviderPolicy.{
  before_byte, has_byte, after_last, scheme_end, after_scheme, host_of, eq_ignore_ascii_case,
  is_platform_upstream,
}

-- A text without the byte.
abbrev pub without : ℕ → Text → Bool
without b s = not (has_byte b s)

abbrev ahead : Text → Option (Text × Text) → Option (Text × Text)
ahead p none = none
ahead p (some (a, b)) = some (p ++ a, b)

-- A search for `://` passes over a byte that is no colon, and over a text without a colon.
find-step :
    (c : ℕ) (s : Text)
    → (c == b':') ≡ false
    → find scheme_end (c ∷ s) ≡ (find scheme_end s >>= λ (before, after). some (c ∷ before, after))
unfolding find starts_with
find-step c s h = let miss : (b':' == c) ≡ false = ground arith in rw miss refl

ahead-step :
    (c : ℕ) (p : Text) (o : Option (Text × Text))
    → (ahead p o >>= λ (before, after). some (c ∷ before, after)) ≡ ahead (c ∷ p) o
ahead-step c p none = refl
ahead-step c p (some (a, b)) = refl

ahead-nothing : (o : Option (Text × Text)) → o ≡ ahead [] o
ahead-nothing none = refl
ahead-nothing (some (a, b)) = refl

find-skip :
    (p s : Text) → without b':' p ≡ true → find scheme_end (p ++ s) ≡ ahead p (find scheme_end s)
unfolding has_byte
find-skip [] s h = ahead-nothing (find scheme_end s)
find-skip (c ∷ p) s h =
    find-step c (p ++ s) (ground arith)
    ∙ ap (λ (o : Option (Text × Text)). o >>= λ (before, after). some (c ∷ before, after))
        (find-skip p s (ground arith))
    ∙ ahead-step c p (find scheme_end s)

before_byte-stop : (b : ℕ) (p s : Text) → without b p ≡ true → before_byte b (p ++ b ∷ s) ≡ p
unfolding before_byte has_byte
before_byte-stop b [] s h = ground arith
before_byte-stop b (c ∷ p) s h = ground (arith, before_byte-stop b p s)

before_byte-whole : (b : ℕ) (p : Text) → without b p ≡ true → before_byte b p ≡ p
unfolding before_byte has_byte
before_byte-whole b [] h = refl
before_byte-whole b (c ∷ p) h = ground (arith, before_byte-whole b p)

after_last-whole : (b : ℕ) (p : Text) → without b p ≡ true → after_last b p ≡ p
unfolding after_last has_byte
after_last-whole b [] h = refl
after_last-whole b (c ∷ p) h = ground arith

find-here : (s : Text) → find scheme_end (scheme_end ++ s) ≡ some ([], s)
unfolding find starts_with
find-here s = refl

after_scheme-once :
    (u x r : Text) → find scheme_end u ≡ some (x, r) → find scheme_end r ≡ none → after_scheme u ≡ r
unfolding after_scheme
after_scheme-once u x r e n = ground arith

after_scheme-twice :
    (u x r a b : Text)
    → find scheme_end u ≡ some (x, r)
    → find scheme_end r ≡ some (a, b)
    → after_scheme u ≡ a
unfolding after_scheme
after_scheme-twice u x r a b e n = ground arith

-- What follows the scheme, up to a later `://`, which can only be in the path.
after_scheme-lem :
    (scheme host path : Text)
    → without b':' scheme ≡ true
    → without b':' host ≡ true
    → (rest : Text) × (after_scheme (scheme ++ (scheme_end ++ (host ++ b'/' ∷ path)))
        ≡ host ++ b'/' ∷ rest)
after_scheme-lem scheme host path s h =
    let whole = host ++ b'/' ∷ path in
    let first : find scheme_end (scheme ++ (scheme_end ++ whole)) ≡ some (scheme ++ [], whole) =
      find-skip scheme (scheme_end ++ whole) s ∙ ap (ahead scheme) (find-here whole) in
    let second = find-skip host (b'/' ∷ path) h in
    let step = find-step b'/' path refl in
    elim (Option-cases (find scheme_end path)) [
      | inl e ↦
          let slash : find scheme_end (b'/' ∷ path) ≡ none = step ∙ ground arith in
          let none_left : find scheme_end whole ≡ none = second ∙ ap (ahead host) slash in
          (path, after_scheme-once _ _ whole first none_left)
      | inr ((a, b), e) ↦
          let slash : find scheme_end (b'/' ∷ path) ≡ some (b'/' ∷ a, b) = step ∙ ground arith in
          let cut : find scheme_end whole ≡ some (host ++ b'/' ∷ a, b) =
            second ∙ ap (ahead host) slash in
          (a, after_scheme-twice _ _ whole _ b first cut)
    ]

-- The host of `scheme://host/path` is `host`, whatever the path, where the scheme has no colon and
-- the host no slash, no at sign and no colon.
host_of-url :
    (scheme host path : Text)
    → without b':' scheme ≡ true
    → without b':' host ≡ true
    → without b'/' host ≡ true
    → without b'@' host ≡ true
    → host_of (scheme ++ (scheme_end ++ (host ++ b'/' ∷ path))) ≡ host
unfolding host_of
host_of-url scheme host path s c l a =
    let r = after_scheme-lem scheme host path s c in
    ap (λ t. before_byte b':' (after_last b'@' (before_byte b'/' t))) r.1
    ∙ ap (λ t. before_byte b':' (after_last b'@' t)) (before_byte-stop b'/' host r.0 l)
    ∙ ap (before_byte b':') (after_last-whole b'@' host a)
    ∙ before_byte-whole b':' host c

-- Of an upstream `scheme://host/path` the host alone decides whether it is the platform's, whatever
-- the path, where the scheme has no colon and the host no slash, no at sign and no colon.
pub is_platform-host :
    (scheme host path : Text)
    → without b':' scheme ≡ true
    → without b':' host ≡ true
    → without b'/' host ≡ true
    → without b'@' host ≡ true
    → is_platform_upstream (scheme ++ (scheme_end ++ (host ++ b'/' ∷ path)))
      ≡ eq_ignore_ascii_case host (codes "api.openai.com")
unfolding is_platform_upstream
is_platform-host scheme host path s c l a =
    ap (λ t. eq_ignore_ascii_case t (codes "api.openai.com")) (host_of-url scheme host path s c l a)
