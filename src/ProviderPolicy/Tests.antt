-- ===== src/ProviderPolicy/Tests.antt =====
-- Runs of src/provider_policy.rs, with whole numbers in place of `f64`.
use ostk_cache.Prelude.{
  all, ℕ, ◌*◌, ◌/◌, ◌≡◌, ◌↔◌, refl, true, is_some, codes, eqb, starts_with, Text, map, ◌∷◌, ◌++◌,
}
use ostk_cache.Prelude.Numbers.{is_digit}
use ostk_cache.ReminderStrip.{find}
use ostk_cache.WritePolicy.{F64, ephemeral_1h}
use ostk_cache.ProviderPolicy.{
  anthropic, gpt, backend_for, is_platform_upstream, host_of, after_scheme, before_byte, after_last,
  has_byte, scheme_end, eq_ignore_ascii_case, to_ascii_lowercase,
}
use ostk_cache.ProviderPolicy.Upstream.{without}
use ostk_cache.ProviderPolicy.Wires.{is_host_byte, wires_iff}

abbrev whole : F64
whole = record {
  Float = ℕ;
  of_u64 = λ n. n;
  mul = λ a b. a * b;
  div = λ a b. a / b;
  to_u64 = λ a. a;
}

platform_upstream : is_platform_upstream (codes "https://API.openai.com/v1") ≡ true
unfolding is_platform_upstream host_of after_scheme before_byte after_last has_byte find starts_with
    eq_ignore_ascii_case to_ascii_lowercase eqb
platform_upstream = refl

-- A query that follows the host without a slash is read as part of the authority.
query_upstream : is_platform_upstream (codes "https://proxy.example?u=@api.openai.com") ≡ true
unfolding is_platform_upstream host_of after_scheme before_byte after_last has_byte find starts_with
    eq_ignore_ascii_case to_ascii_lowercase eqb
query_upstream = refl

no_colon : without b':' (codes "https") ≡ true
unfolding has_byte
no_colon = refl

plain_host : all is_host_byte (codes "API.openai.com") ≡ true
unfolding is_host_byte is_digit all
plain_host = refl

abbrev openai_v1 : Text
openai_v1 = codes "https" ++ (scheme_end ++ (codes "API.openai.com" ++ b'/' ∷ codes "v1"))

wires_iff_example :
    ((is_some ((backend_for whole gpt openai_v1).tier_wire ephemeral_1h) ≡ true)
      ↔ (gpt ≡ anthropic))
    × ((is_some ((backend_for whole gpt openai_v1).retention_wire ephemeral_1h) ≡ true) ↔ (
        (gpt ≡ gpt) × (map to_ascii_lowercase (codes "API.openai.com") ≡ codes "api.openai.com")))
wires_iff_example =
    wires_iff whole gpt (codes "https") (codes "API.openai.com") (codes "v1") ephemeral_1h no_colon
      plain_host
