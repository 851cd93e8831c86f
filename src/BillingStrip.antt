-- ===== src/BillingStrip.antt =====
-- src/billing_strip.rs: the volatile `cch=<hex>;` tokens are cut out of every string of a request.
-- The byte indices of the source are suffixes here: `rest` is `s[i..]`, `pending` is
-- `s[last_emit..i]`. Each round of the loop consumes a byte, so the length of the text is enough fuel.
pub mod Token
pub mod Scan
pub mod Residue
pub mod Tree
mod Tests
use ostk_cache.Prelude.{
  ℕ, suc, zero, ◌+◌, Bool, true, false, ◌&&◌, ◌||◌, List, [], ◌∷◌, ◌++◌, Option, none, some, Text,
  codes, starts_with, ltb, leb, ◌==◌, if◌then◌else◌, length, take, drop,
}
use ostk_cache.Json.{
  Value, null, bool, num, literal, str, array, object, Elements, nil, cons, Entries, end, entry,
  get, update,
}

abbrev pub needle : Text
needle = codes "cch="

-- `is_ascii_hexdigit() && !is_ascii_uppercase()`
unfoldable pub is_lower_hex : ℕ → Bool
is_lower_hex c = leb b'0' c && leb c b'9' || leb b'a' c && leb c b'f'

-- The inner `while`: the digits from `j` on, and what follows them.
unfoldable pub hex_span : Text → Text × Text
hex_span [] = ([], [])
hex_span (c ∷ cs) =
    let (hex, after) = hex_span cs in if is_lower_hex c then (c ∷ hex, after) else ([], c ∷ cs)

-- `j > value_start && j < bytes.len() && bytes[j] == b';'`: what is left behind the token.
closes : Text → Text → Option Text
closes [] after = none
closes (h ∷ hs) [] = none
closes (h ∷ hs) (c ∷ after) = if c == b';' then some after else none

unfoldable pub token_at : Text → Option Text
unfolding closes hex_span
token_at rest =
    if starts_with needle rest
    then (let (hex, after) = hex_span (drop 4 rest) in closes hex after)
    else none

unfoldable pub scan : ℕ → Text → Text → Text → ℕ → Text × ℕ
scan zero rest pending out count = (out ++ (pending ++ rest), count)
scan (suc fuel) rest pending out count = elim (ltb (length rest) 4) [
  | true ↦ (out ++ (pending ++ rest), count)
  | false ↦ elim (token_at rest) [
    | some after ↦ scan fuel after [] (out ++ pending) (count + 1)
    | none ↦ scan fuel (drop 1 rest) (pending ++ take 1 rest) out count
  ]
]

unfoldable pub strip_cch_tokens_in_str : Text → Option (Text × ℕ)
unfolding scan
strip_cch_tokens_in_str s =
    let (out, count) = scan (length s) s [] [] 0 in if count == 0 then none else some (out, count)

strip_str : Text → Option (Text × ℕ) → Value × ℕ
strip_str s none = (str s, 0)
strip_str s (some (stripped, n)) = (str stripped, n)

unfoldable mutual
  unfolding strip_str

  pub strip_volatile_billing_tokens : Value → Value × ℕ
  strip_volatile_billing_tokens (str s) = strip_str s (strip_cch_tokens_in_str s)
  strip_volatile_billing_tokens (array xs) = let (xs', n) = strip_items xs in (array xs', n)
  strip_volatile_billing_tokens (object fs) = let (fs', n) = strip_fields fs in (object fs', n)
  strip_volatile_billing_tokens null = (null, 0)
  strip_volatile_billing_tokens (bool b) = (bool b, 0)
  strip_volatile_billing_tokens (num n) = (num n, 0)
  strip_volatile_billing_tokens (literal t) = (literal t, 0)

  pub strip_items : Elements → Elements × ℕ
  strip_items nil = (nil, 0)
  strip_items (cons x xs) =
      let (x', n) = strip_volatile_billing_tokens x in
      let (xs', m) = strip_items xs in (cons x' xs', n + m)

  pub strip_fields : Entries → Entries × ℕ
  strip_fields end = (end, 0)
  strip_fields (entry k v fs) =
      let (v', n) = strip_volatile_billing_tokens v in
      let (fs', m) = strip_fields fs in (entry k v' fs', n + m)

-- The narrower strip, of `system` alone; the result says whether a token was cut.
pub strip_volatile_billing_token : Value → Value × Bool
strip_volatile_billing_token value = elim (get "system" value) [
  | none ↦ (value, false)
  | some system ↦
      let (system', total) = strip_volatile_billing_tokens system in
      (update "system" (λ _. system') value, ltb 0 total)
]
