-- ===== src/TtlForecast/WakeHint.antt =====
-- The hint of an identity file, `parse_wake_hint` of src/ttl_forecast.rs.
use ostk_cache.Prelude.{
  ℕ, ◌*◌, ◌%◌, ◌^◌, ◌==◌, ltb, [], ◌∷◌, Option, none, some, Text, codes, if◌then◌else◌, ◌>>=◌,
}
use ostk_cache.Prelude.Lines.{strip_prefix, trim_end_byte}
use ostk_cache.Prelude.Numbers.{max_u64, parse_unsigned}
use ostk_cache.Prelude.Utf8.{trim}
use ostk_cache.TtlForecast.{TtlForecast, keep_1h, demote_5m, sixty_min_s}

-- `strip_suffix` of one byte.
unfoldable pub strip_last : ℕ → Text → Option Text
strip_last b [] = none
strip_last b (c ∷ []) = if c == b then some [] else none
strip_last b (c ∷ d ∷ s) = strip_last b (d ∷ s) >>= λ rest. some (c ∷ rest)

-- A number of a unit, in seconds; the product wraps around.
unfoldable pub count_of : ℕ → Text → Option ℕ
unfolding trim parse_unsigned
count_of unit n = parse_unsigned max_u64 (trim n) >>= λ v. some (v * unit % 2 ^ 64)

unfoldable pub parse_duration_str : Text → Option ℕ
unfolding strip_last count_of
parse_duration_str s = elim (strip_last b's' s) [
  | some n ↦ count_of 1 n
  | none ↦ elim (strip_last b'm' s) [
    | some n ↦ count_of 60 n
    | none ↦ elim (strip_last b'h' s) [ some n ↦ count_of 3600 n | none ↦ count_of 1 s ]
  ]
]

unfoldable pub hint_of : Option ℕ → TtlForecast
hint_of none = keep_1h
hint_of (some secs) = if ltb sixty_min_s secs then demote_5m else keep_1h

unfoldable pub parse_wake_hint : Text → TtlForecast
unfolding trim strip_prefix trim_end_byte parse_duration_str hint_of
parse_wake_hint wake = elim (strip_prefix (codes "cron(") (trim wake)) [
  | none ↦ keep_1h
  | some rest ↦ hint_of (parse_duration_str (trim_end_byte b')' rest))
]
