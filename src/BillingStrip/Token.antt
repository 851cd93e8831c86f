-- ===== src/BillingStrip/Token.antt =====
-- What a token of src/billing_strip.rs is, and that the code's test finds exactly the tokens.
use ostk_cache.Prelude.{
  ◌≤◌, ◌≡◌, ◌≢◌, refl, ap, ◌∙◌, sym, true, [], ◌∷◌, ◌++◌, some, Text, starts_with,
  starts_with_append, starts_with_split, arith, length, length-append, drop, all, append_assoc,
  Bool-cases, inl, inr,
}
use ostk_cache.BillingStrip.{needle, is_lower_hex, hex_span, closes, token_at}

-- `cch=`, one or more lower-case hexadecimal digits, and a semicolon.
pub record IsToken (t : Text) : Type 0 where
  pub hex : Text
  pub digits : all is_lower_hex hex ≡ true
  pub nonempty : hex ≢ []
  pub spelled : t ≡ needle ++ (hex ++ b';' ∷ [])

hex_span_lem :
    (s : Text) → (s ≡ (hex_span s).0 ++ (hex_span s).1) × (all is_lower_hex (hex_span s).0 ≡ true)
unfolding hex_span all
hex_span_lem [] = (refl, refl)
hex_span_lem (c ∷ cs) = ground (arith, hex_span_lem cs)

hex_span-append :
    (hex rest : Text)
    → all is_lower_hex hex ≡ true
    → hex_span (hex ++ b';' ∷ rest) ≡ (hex, b';' ∷ rest)
unfolding hex_span all is_lower_hex
hex_span-append [] rest h = refl
hex_span-append (c ∷ hex) rest h = ground (arith, hex_span-append hex rest)

closes_lem :
    (hex after rest : Text) → closes hex after ≡ some rest → (hex ≢ []) × (after ≡ b';' ∷ rest)
unfolding closes
closes_lem [] after rest e = cc
closes_lem (h ∷ hs) [] rest e = cc
closes_lem (h ∷ hs) (c ∷ after) rest e = ground arith

-- The token that a successful test has read.
read-IsToken :
    (s rest : Text)
    → starts_with needle s ≡ true
    → closes (hex_span (drop 4 s)).0 (hex_span (drop 4 s)).1 ≡ some rest
    → (t : Text) × IsToken t × (s ≡ t ++ rest)
read-IsToken s rest h e =
    let hex = (hex_span (drop 4 s)).0 in
    let c = closes_lem hex (hex_span (drop 4 s)).1 rest e in
    let l = hex_span_lem (drop 4 s) in
    (
      needle ++ (hex ++ b';' ∷ []),
      record { hex = hex; digits = l.1; nonempty = c.0; spelled = refl },
      starts_with_split needle s h
          ∙ ap (λ (x : Text). needle ++ x)
              (l.0 ∙ ap (λ (x : Text). hex ++ x) c.1 ∙ sym (append_assoc hex (b';' ∷ []) rest)),
    )

-- Where the test succeeds there is a token, with the rest behind it.
pub token_at_sound :
    (s rest : Text) → token_at s ≡ some rest → (t : Text) × IsToken t × (s ≡ t ++ rest)
unfolding token_at
token_at_sound s rest e = elim (Bool-cases (starts_with needle s)) [
  | inl h ↦ read-IsToken s rest h (ground arith)
  | inr h ↦ absurd (ground arith)
]

closes-append : (hex rest : Text) → hex ≢ [] → closes hex (b';' ∷ rest) ≡ some rest
unfolding closes
closes-append [] rest h = absurd (h refl)
closes-append (c ∷ cs) rest h = refl

needle_found : (s : Text) → starts_with needle (needle ++ s) ≡ true
needle_found s = starts_with_append needle s

token_at-needle :
    (hex rest : Text)
    → all is_lower_hex hex ≡ true
    → hex ≢ []
    → token_at (needle ++ (hex ++ b';' ∷ rest)) ≡ some rest
unfolding token_at
token_at-needle hex rest d n =
    ground (
      arith,
      needle_found (hex ++ b';' ∷ rest),
      hex_span-append hex rest d,
      closes-append hex rest n,
    )

-- Before any rest, a token is found.
pub token_at_complete : (t rest : Text) → IsToken t → token_at (t ++ rest) ≡ some rest
token_at_complete t rest k =
    ap (λ (x : Text). token_at (x ++ rest)) k.spelled
    ∙ ap (λ (x : Text). token_at (needle ++ x)) (append_assoc k.hex (b';' ∷ []) rest)
    ∙ token_at-needle k.hex rest k.digits k.nonempty

long_enough : (hex : Text) → hex ≢ [] → 6 ≤ length (needle ++ (hex ++ b';' ∷ []))
long_enough [] h = absurd (h refl)
long_enough (c ∷ cs) h = omega (arith, length-append cs (b';' ∷ []))

-- A token has at least six bytes.
pub token_length : (t : Text) → IsToken t → 6 ≤ length t
token_length t k = rw k.spelled (long_enough k.hex k.nonempty)
