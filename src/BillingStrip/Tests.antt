-- ===== src/BillingStrip/Tests.antt =====
-- Runs of src/billing_strip.rs, after its own tests.
use ostk_cache.Prelude.{◌≡◌, ◌≢◌, refl, true, [], none, some, Text, codes, starts_with}
use ostk_cache.Json.{Value, array, object, str, nil, cons, end, entry, get}
use ostk_cache.BillingStrip.{
  is_lower_hex, token_at, strip_cch_tokens_in_str, strip_volatile_billing_tokens,
  strip_volatile_billing_token,
}
use ostk_cache.BillingStrip.Scan.{Describes, strip_tokens-Describes}

strips_one : strip_cch_tokens_in_str (codes "alpha cch=abcde;beta") ≡ some (codes "alpha beta", 1)
unfolding strip_cch_tokens_in_str token_at is_lower_hex starts_with
strips_one = refl

strips_all :
    strip_cch_tokens_in_str (codes "alpha cch=aaaaa;beta cch=bbbbb;gamma")
    ≡ some (codes "alpha beta gamma", 2)
unfolding strip_cch_tokens_in_str token_at is_lower_hex starts_with
strips_all = refl

rejects :
    (strip_cch_tokens_in_str (codes "nothing here") ≡ none)
    × (strip_cch_tokens_in_str (codes "cch=without-semi") ≡ none)
    × (strip_cch_tokens_in_str (codes "cch=ABCDE;uppercase-rejected") ≡ none)
unfolding strip_cch_tokens_in_str token_at is_lower_hex starts_with
rejects = (refl, refl, refl)

abbrev request : Value
request = object (
    entry "system" (array (cons (str (codes "cch=11111;Claude")) nil))
      (entry "user" (str (codes "cch=a;b cch=c;")) end))

counts_three : (strip_volatile_billing_tokens request).1 ≡ 3
unfolding strip_volatile_billing_tokens strip_cch_tokens_in_str token_at is_lower_hex starts_with
counts_three = refl

system_alone : (strip_volatile_billing_token request).1 ≡ true
unfolding strip_volatile_billing_token strip_volatile_billing_tokens strip_cch_tokens_in_str
    token_at is_lower_hex starts_with get
system_alone = refl

strip_tokens-Describes_example :
    Describes
      (codes "alpha cch=abcde;beta")
      (strip_cch_tokens_in_str (codes "alpha cch=abcde;beta"))
strip_tokens-Describes_example = strip_tokens-Describes (codes "alpha cch=abcde;beta")

hex_ne : ◌≢◌ {A = Text} (codes "a1") []
hex_ne = λ e. cc e
