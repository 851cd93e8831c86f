-- ===== src/BillingStrip/Residue.antt =====
-- A cut of src/billing_strip.rs can join the bytes around a token into a new token, which stays.
use ostk_cache.Prelude.{
  ℕ, ◌≡◌, ◌≢◌, refl, ap, sym, true, false, [], ◌∷◌, ◌++◌, Option, none, some, Text, codes,
  starts_with, arith, all,
}
use ostk_cache.BillingStrip.{needle, is_lower_hex, token_at, strip_cch_tokens_in_str}
use ostk_cache.BillingStrip.Token.{IsToken}
use ostk_cache.BillingStrip.Scan.{
  Strips, stop, keep, cut, Strips-unique, Describes, strip_tokens-Describes, no_token,
}

abbrev pub token : Text → Text
token hex = needle ++ (hex ++ b';' ∷ [])

pub token-IsToken : (hex : Text) → all is_lower_hex hex ≡ true → hex ≢ [] → IsToken (token hex)
token-IsToken hex d n = record { hex = hex; digits = d; nonempty = n; spelled = refl }

-- Digits and a semicolon hold no token.
digits_start :
    (hex : Text) → all is_lower_hex hex ≡ true → starts_with needle (hex ++ b';' ∷ []) ≡ false
unfolding starts_with all is_lower_hex
digits_start [] h = refl
digits_start (x ∷ []) h = ground arith
digits_start (x ∷ y ∷ []) h = ground arith
digits_start (x ∷ y ∷ z ∷ hex) h = ground arith

no_needle : (s : Text) → starts_with needle s ≡ false → token_at s ≡ none
unfolding token_at
no_needle s h = ground arith

digits-Strips :
    (hex : Text) → all is_lower_hex hex ≡ true → Strips (hex ++ b';' ∷ []) (hex ++ b';' ∷ []) 0
unfolding all
digits-Strips [] h =
    keep (no_token b';' [] (no_needle (b';' ∷ []) (unfold starts_with in refl))) stop
digits-Strips (x ∷ hex) h =
    keep
      (no_token x (hex ++ b';' ∷ [])
        (no_needle (x ∷ (hex ++ b';' ∷ [])) (digits_start (x ∷ hex) h)))
      (digits-Strips hex (ground arith))

keep_byte :
    (c : ℕ) (s out : Text) (n : ℕ)
    → starts_with needle (c ∷ s) ≡ false
    → Strips s out n
    → Strips (c ∷ s) (c ∷ out) n
keep_byte c s out n h k = keep (no_token c s (no_needle (c ∷ s) h)) k

-- `ch=`, digits and a semicolon hold no token.
tail-Strips :
    (hex : Text)
    → all is_lower_hex hex ≡ true
    → Strips (codes "ch=" ++ (hex ++ b';' ∷ [])) (codes "ch=" ++ (hex ++ b';' ∷ [])) 0
unfolding starts_with
tail-Strips hex h =
    keep_byte b'c' _ _ 0 refl
      (keep_byte b'h' _ _ 0 refl (keep_byte b'=' _ _ 0 refl (digits-Strips hex h)))

split-Strips :
    (hex hex' : Text)
    → all is_lower_hex hex ≡ true
    → hex ≢ []
    → all is_lower_hex hex' ≡ true
    → Strips (b'c' ∷ (token hex ++ (codes "ch=" ++ (hex' ++ b';' ∷ [])))) (token hex') 1
unfolding starts_with
split-Strips hex hex' d n d' =
    keep_byte b'c' _ _ 1 refl (cut (token-IsToken hex d n) refl (tail-Strips hex' d'))

stripped_once :
    (s out : Text) → Strips s out 1 → (r : Option (Text × ℕ)) → Describes s r → r ≡ some (out, 1)
stripped_once s out k none d = absurd (omega (arith, (Strips-unique k d).1))
stripped_once s out k (some (out', n)) d =
    let u = Strips-unique k d.0 in ap some (λ i. (sym u.0 i, sym u.1 i))

-- A token that stands inside the spelling of another hides it: of `c`, a token, `ch=`, digits and a
-- semicolon the strip cuts the inner token alone, and what is left is itself a token.
pub split_token_stays :
    (hex hex' : Text)
    → all is_lower_hex hex ≡ true
    → hex ≢ []
    → all is_lower_hex hex' ≡ true
    → hex' ≢ []
    → (strip_cch_tokens_in_str (b'c' ∷ (token hex ++ (codes "ch=" ++ (hex' ++ b';' ∷ []))))
        ≡ some (token hex', 1))
      × IsToken (token hex')
split_token_stays hex hex' d n d' n' = (
  stripped_once _ _ (split-Strips hex hex' d n d') _ (strip_tokens-Describes _),
  token-IsToken hex' d' n',
)
