-- ===== src/ProviderPolicy/Wires.antt =====
-- What each back end of src/provider_policy.rs may write on the wire.
use ostk_cache.Prelude.{
  ℕ, Bool, false, ◌||◌, ◌&&◌, ◌==◌, leb, all, [], refl, ◌≡◌, ◌↔◌, ◌∙◌, sym, true, is_some, arith,
  Text, Bool-cases, inl, inr, ◌∷◌, ◌++◌, codes, map, eqb_iff,
}
use ostk_cache.WritePolicy.{F64, TtlTier, ephemeral_5m, ephemeral_1h}
use ostk_cache.Prelude.Numbers.{is_digit}
use ostk_cache.ProviderPolicy.{
  has_byte, Provider, anthropic, gpt, GptWire, chat_gpt, platform, gpt_retention,
  is_platform_upstream, anthropic_policy, gpt_policy, backend_for, scheme_end, to_ascii_lowercase,
  eq_ignore_ascii_case,
}
use ostk_cache.ProviderPolicy.Upstream.{without, is_platform-host}

retention_iff :
    (w : GptWire) (tier : TtlTier) → (is_some (gpt_retention w tier) ≡ true) ↔ (w ≡ platform)
unfolding gpt_retention
retention_iff chat_gpt tier = ground arith
retention_iff platform ephemeral_5m = ground arith
retention_iff platform ephemeral_1h = ground arith

-- A letter, a digit, a dot or a hyphen.
unfoldable pub is_host_byte : ℕ → Bool
is_host_byte c =
    is_digit c || (leb b'a' c && leb c b'z') || (leb b'A' c && leb c b'Z') || c == b'.' || c == b'-'

host_bytes-without :
    (b : ℕ) (host : Text)
    → is_host_byte b ≡ false
    → all is_host_byte host ≡ true
    → without b host ≡ true
unfolding all has_byte
host_bytes-without b [] n h = refl
host_bytes-without b (c ∷ host) n h = elim (Bool-cases (c == b)) [
  | inl e ↦
      let same : c ≡ b = ground arith in
      let yes : is_host_byte c ≡ true = ground arith in absurd (cc (same, yes, n))
  | inr e ↦ ground (arith, host_bytes-without b host n)
]

-- The letters of the host in lower case.
is_platform-lower :
    (scheme host path : Text)
    → without b':' scheme ≡ true
    → all is_host_byte host ≡ true
    → (is_platform_upstream (scheme ++ (scheme_end ++ (host ++ b'/' ∷ path))) ≡ true)
      ↔ (map to_ascii_lowercase host ≡ codes "api.openai.com")
unfolding eq_ignore_ascii_case to_ascii_lowercase is_host_byte is_digit
is_platform-lower scheme host path s h =
    let e =
      is_platform-host scheme host path s (host_bytes-without b':' host refl h)
        (host_bytes-without b'/' host refl h) (host_bytes-without b'@' host refl h) in
    let d = eqb_iff (map to_ascii_lowercase host) (codes "api.openai.com") in
    (λ x. d.0 (sym e ∙ x), λ x. e ∙ d.1 x)

module _ (F : F64) where
  wires_lem :
      (p : Provider) (upstream : Text) (tier : TtlTier)
      → ((is_some ((backend_for F p upstream).tier_wire tier) ≡ true) ↔ (p ≡ anthropic))
        × ((is_some ((backend_for F p upstream).retention_wire tier) ≡ true)
            ↔ ((p ≡ gpt) × (is_platform_upstream upstream ≡ true)))
  unfolding backend_for anthropic_policy gpt_policy
  wires_lem anthropic upstream tier = ground arith
  wires_lem gpt upstream tier = elim (Bool-cases (is_platform_upstream upstream)) [
    | inl e ↦ rw e (ground (arith, retention_iff platform tier))
    | inr e ↦ rw e (ground (arith, retention_iff chat_gpt tier))
  ]

  -- For an upstream `scheme://host/path`, where the scheme has no colon and the host only letters,
  -- digits, dots and hyphens, the chosen back end marks breakpoints exactly where the provider is
  -- Anthropic, and asks for a retention exactly where it is GPT and the host is api.openai.com in any
  -- case of its letters, whatever the path and the tier.
  pub wires_iff :
      (p : Provider) (scheme host path : Text) (tier : TtlTier)
      → without b':' scheme ≡ true
      → all is_host_byte host ≡ true
      → ((is_some
              ((backend_for F p (scheme ++ (scheme_end ++ (host ++ b'/' ∷ path)))).tier_wire tier)
            ≡ true)
          ↔ (p ≡ anthropic))
        × ((is_some (
                (backend_for F p (scheme ++ (scheme_end ++ (host ++ b'/' ∷ path)))).retention_wire
                  tier)
              ≡ true)
            ↔ ((p ≡ gpt) × (map to_ascii_lowercase host ≡ codes "api.openai.com")))
  wires_iff p scheme host path tier s h =
      let r = wires_lem p (scheme ++ (scheme_end ++ (host ++ b'/' ∷ path))) tier in
      let q = is_platform-lower scheme host path s h in
      (r.0, (λ x. let w = r.1.0 x in (w.0, q.0 w.1), λ (x, y). r.1.1 (x, q.1 y)))
