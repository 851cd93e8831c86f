-- ===== src/UsageTruth/Bump.antt =====
-- The bump of a usage object in src/usage_truth.rs.
use ostk_cache.Prelude.{
  ℕ, ◌+◌, ◌-◌, ◌%◌, ◌^◌, ◌<◌, ◌≡◌, ◌≢◌, ap, max, Option, some, String, arith, leb, ◌>>=◌, unwrap_or,
  Bool-cases, inl, inr,
}
use text.Mathlib.TextEquality.{eq_iff}
use ostk_cache.Json.{Value, num, get, get_u64, put, object, as_u64}
use ostk_cache.Json.Laws.{get-put_ne, get-put}
use ostk_cache.UsageTruth.{total_in, bump}

get_u64_of_get : (k : String) (v w : Value) → get k v ≡ get k w → get_u64 k v ≡ get_u64 k w
unfolding get_u64
get_u64_of_get k v w e = ap (λ (o : Option Value). o >>= as_u64) e

input≢read : ◌≢◌ {A = String} "input_tokens" "cache_read_input_tokens"
input≢read = ground (arith, eq_iff "input_tokens" "cache_read_input_tokens")

input≢creation : ◌≢◌ {A = String} "input_tokens" "cache_creation_input_tokens"
input≢creation = ground (arith, eq_iff "input_tokens" "cache_creation_input_tokens")

-- The input side of a usage with its three numbers, no sum of which wraps around.
abbrev pub input_sum : Value → ℕ
input_sum u =
    unwrap_or (get_u64 "input_tokens" u) 0
    + unwrap_or (get_u64 "cache_read_input_tokens" u) 0
    + unwrap_or (get_u64 "cache_creation_input_tokens" u) 0

put-input :
    (u : Value) (n k : ℕ)
    → get_u64 "input_tokens" u ≡ some k
    → get_u64 "input_tokens" (put "input_tokens" (num n) u) ≡ some n
unfolding get_u64 get
put-input (object fs) n k h =
    ap (λ (o : Option Value). o >>= as_u64) (get-put "input_tokens" "input_tokens" (num n) fs)
put-input _ n k h = absurd (ground arith)

-- The usage that is reported for one with an input number.
abbrev pub reported : ℕ → Value → Value
reported est u = unwrap_or (bump est u) u

-- With the estimate a `u64`, of a usage with an input number whose sum does not wrap around, the one that is reported has the
-- larger of the estimate and that sum as its sum, and the two cache numbers as they were.
pub reported-max :
    (est k : ℕ) (u : Value)
    → get_u64 "input_tokens" u ≡ some k
    → input_sum u < 2 ^ 64
    → est < 2 ^ 64
    → (input_sum (reported est u) ≡ max est (input_sum u))
      × (get_u64 "cache_read_input_tokens" (reported est u) ≡ get_u64 "cache_read_input_tokens" u)
      × (get_u64 "cache_creation_input_tokens" (reported est u)
          ≡ get_u64 "cache_creation_input_tokens" u)
unfolding bump total_in
reported-max est k u e h b =
    let n = (k + (est - total_in u)) % 2 ^ 64 in
    let r =
      get_u64_of_get "cache_read_input_tokens" _ u
        (get-put_ne "input_tokens" "cache_read_input_tokens" (num n) u input≢read) in
    let c =
      get_u64_of_get "cache_creation_input_tokens" _ u
        (get-put_ne "input_tokens" "cache_creation_input_tokens" (num n) u input≢creation) in
    let i = put-input u n k e in
    elim (Bool-cases (leb est (total_in u))) [ inl l ↦ ground arith | inr l ↦ ground arith ]
