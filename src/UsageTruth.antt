-- ===== src/UsageTruth.antt =====
-- src/usage_truth.rs: the overflow answer, and the rewriter that reports the true size of a request
-- in the usage of a streamed response. `u64` sums wrap around. Bytes are numbers.
pub mod Overflow
pub mod Bump
pub mod Frames
pub mod Stream
pub mod Verbatim
mod Tests
use ostk_cache.Prelude.{
  ◌*◌, map, ℕ, zero, suc, ◌+◌, ◌-◌, ◌%◌, ◌^◌, min, max, Bool, true, false, not, ◌&&◌, ◌||◌, List,
  [], ◌∷◌, ◌++◌, Option, none, some, String, Text, codes, eqb, starts_with, ltb, leb, ◌==◌,
  if◌then◌else◌, ◌>>=◌, unwrap_or, or_else, length, take, drop, any, is_some,
}
use ostk_cache.Prelude.Lines.{split_inclusive, strip_prefix, lines}
use ostk_cache.Json.{Value, num, str, object, entry, end, get, get_u64, update, put}
use ostk_cache.Size.{Printer, decimal}
use ostk_cache.Prelude.Utf8.{valid_utf8, trim_end}

-- What the estimate uses of `f64`.
pub record Estimate : Type 1 where
  pub Float : Type 0
  pub of_u64 : ℕ → Float
  -- `x <= 0.0`
  pub no_scale : Float → Bool
  -- `(a / b).round() as u64`
  pub rounded_ratio : Float → Float → ℕ
  -- `4.0`
  pub four : Float

unfoldable pub estimate_tokens : (f : Estimate) → ℕ → f.Float → ℕ
estimate_tokens f body_bytes bytes_per_token =
    if f.no_scale bytes_per_token then 0 else f.rounded_ratio (f.of_u64 body_bytes) bytes_per_token

unfoldable pub enabled_for_session : Bool → List Text → Option Text → Bool
enabled_for_session true allowlist wire_session = true
enabled_for_session false allowlist none = false
enabled_for_session false allowlist (some sid) = any (λ s. eqb s sid) allowlist

unfoldable pub actual_tokens : (f : Estimate) → ℕ → ℕ
actual_tokens f req_bytes = max (estimate_tokens f req_bytes f.four) 1

unfoldable pub max_tokens : (f : Estimate) → ℕ → ℕ → ℕ
unfolding actual_tokens
max_tokens f req_bytes threshold_bytes =
    max (min (estimate_tokens f threshold_bytes f.four) (actual_tokens f req_bytes - 1)) 1

unfoldable pub overflow_error_body : Estimate → ℕ → ℕ → Value
unfolding actual_tokens max_tokens
overflow_error_body f req_bytes threshold_bytes =
    let message =
      codes "prompt is too long: "
      ++ (decimal (actual_tokens f req_bytes)
          ++ (codes " tokens > "
              ++ (decimal (max_tokens f req_bytes threshold_bytes) ++ codes " maximum"))) in
    object (
      entry "error"
        (object
          (entry "message" (str message) (entry "type" (str (codes "invalid_request_error")) end)))
        (entry "type" (str (codes "error")) end))

-- serde_json's parser and printer.
pub record Serde : Type 0 where
  pub from_str : Text → Option Value
  pub to_string : Value → Text

pub record SseUsageRewriter : Type 0 where
  pub carry : Text
  pub est_tokens : ℕ

abbrev pub new : ℕ → SseUsageRewriter
new est = record { carry = []; est_tokens = est }

-- The place just past the first occurrence of a window.
unfoldable pub past : Text → Text → Option ℕ
past w [] = none
past w (x ∷ xs) =
    let later = past w xs in
    if starts_with w (x ∷ xs)
    then some (length w)
    else elim later [ none ↦ none | some p ↦ some (suc p) ]

abbrev pub lf_lf : Text
lf_lf = 10 ∷ 10 ∷ []

abbrev pub crlf_crlf : Text
crlf_crlf = 13 ∷ 10 ∷ 13 ∷ 10 ∷ []

unfoldable pub find_double_newline : Text → Option ℕ
unfolding past
find_double_newline buf = elim (past lf_lf buf) [
  | none ↦ past crlf_crlf buf
  | some a ↦ elim (past crlf_crlf buf) [ none ↦ some a | some b ↦ some (min a b) ]
]

-- For a needle that is not empty.
unfoldable pub contains_subslice : Text → Text → Bool
contains_subslice [] needle = false
contains_subslice (x ∷ xs) needle = starts_with needle (x ∷ xs) || contains_subslice xs needle

unfoldable pub total_in : Value → ℕ
total_in usage =
    (unwrap_or (get_u64 "input_tokens" usage) 0
      + unwrap_or (get_u64 "cache_read_input_tokens" usage) 0
      + unwrap_or (get_u64 "cache_creation_input_tokens" usage) 0)
    % 2 ^ 64

-- The usage object with the bump, where one applies.
unfoldable pub bump : ℕ → Value → Option Value
unfolding total_in
bump est usage = elim (get_u64 "input_tokens" usage) [
  | none ↦ none
  | some input ↦
      if leb est (total_in usage)
      then none
      else some (put "input_tokens" (num ((input + (est - total_in usage)) % 2 ^ 64)) usage)
]

-- `none` stands for `false`: nothing is written.
unfoldable pub bump_usage : ℕ → Value → Option Value
unfolding bump
bump_usage est json = elim (get "message" json >>= get "usage") [
  | some usage ↦ elim (bump est usage) [
    | none ↦ none
    | some u ↦ some (update "message" (update "usage" (λ _. u)) json)
  ]
  | none ↦ elim (get "usage" json) [
    | none ↦ none
    | some usage ↦ elim (bump est usage) [
      | none ↦ none
      | some u ↦ some (update "usage" (λ _. u) json)
    ]
  ]
]

unfoldable pub ends_in_newline : Text → Bool
ends_in_newline [] = false
ends_in_newline (x ∷ []) = x == 10
ends_in_newline (x ∷ y ∷ xs) = ends_in_newline (y ∷ xs)

abbrev pub usage_key : Text
usage_key = 0x22 ∷ codes "usage" ++ 0x22 ∷ []

module _ (serde : Serde) where
  -- A line that is rewritten, where it carries a usage with an input side below the estimate.
  unfoldable pub rewrite_line : ℕ → Text → Option Text
  unfolding strip_prefix bump_usage ends_in_newline
  rewrite_line est line = do
    payload ← or_else (strip_prefix (codes "data: ") line) (strip_prefix (codes "data:") line)
    json ← serde.from_str (trim_end payload)
    bumped ← bump_usage est json
    some (
        take (length line - length payload) line
        ++ (serde.to_string bumped ++ (if ends_in_newline payload then 10 ∷ [] else [])))

  -- The lines joined again, and whether one of them changed.
  unfoldable pub rewrite_lines : ℕ → List Text → Text × Bool
  unfolding rewrite_line
  rewrite_lines est [] = ([], false)
  rewrite_lines est (line ∷ lines) =
      let (text, changed) = rewrite_lines est lines in
      elim (rewrite_line est line) [
        | none ↦ (line ++ text, changed)
        | some new ↦ (new ++ text, true)
      ]

  unfoldable pub rewrite_event : ℕ → Text → Text
  unfolding rewrite_lines split_inclusive contains_subslice
  rewrite_event est event =
      if contains_subslice event usage_key && valid_utf8 event
      then (let (text, changed) = rewrite_lines est (split_inclusive event) in
          if changed then text else event)
      else event

  -- The loop of `transform`: every complete event goes out. Each takes at least two bytes.
  unfoldable pub emit : ℕ → ℕ → Text → Text × Text
  unfolding find_double_newline rewrite_event
  emit est zero carry = ([], carry)
  emit est (suc fuel) carry = elim (find_double_newline carry) [
    | none ↦ ([], carry)
    | some pos ↦
        let (out, rest) = emit est fuel (drop pos carry) in
        (rewrite_event est (take pos carry) ++ out, rest)
  ]

  unfoldable pub transform : SseUsageRewriter → Text → SseUsageRewriter × Text
  unfolding emit
  transform self chunk =
      let buffer = self.carry ++ chunk in
      let (out, rest) = emit self.est_tokens (suc (length buffer)) buffer in
      (record self { carry = rest }, out)

  unfoldable pub flush : SseUsageRewriter → SseUsageRewriter × Text
  flush self = (record self { carry = [] }, self.carry)

unfoldable pub join_lines : List Text → Text
join_lines [] = []
join_lines (l ∷ []) = l
join_lines (l ∷ m ∷ ls) = l ++ (10 ∷ join_lines (m ∷ ls))

unfoldable pub augment_line : Text → Text → Text
augment_line gauge line = if starts_with (codes "[meminfo]") line then line ++ gauge else line

unfoldable pub augment_meminfo_body : Printer → Text → ℕ → Text
unfolding join_lines augment_line
augment_meminfo_body out envelope body_bytes =
    let gauge = codes " body:" ++ (out.one_decimal body_bytes (1024 * 1024) ++ codes "MB/32MB") in
    join_lines (map (augment_line gauge) (lines envelope))
