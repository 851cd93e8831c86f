-- ===== src/Prelude/Numbers.antt =====
-- `str::parse` into an unsigned integer, by its largest value.
use ostk_cache.Prelude.{
  ℕ, ◌+◌, ◌-◌, ◌*◌, Bool, ◌&&◌, [], ◌∷◌, Option, none, some, Text, leb, ◌==◌, if◌then◌else◌,
}

abbrev pub max_u16 : ℕ
max_u16 = 65535

abbrev pub max_u64 : ℕ
max_u64 = 18446744073709551615

unfoldable pub is_digit : ℕ → Bool
is_digit c = leb b'0' c && leb c b'9'

-- A digit that is none, or a number above the largest, is an error.
unfoldable pub scan_digits : ℕ → ℕ → Text → Option ℕ
unfolding is_digit
scan_digits largest n [] = some n
scan_digits largest n (c ∷ s) =
    let rest = scan_digits largest (n * 10 + (c - b'0')) s in
    if is_digit c then (if leb (n * 10 + (c - b'0')) largest then rest else none) else none

-- A sign may stand before the digits, of which there is one at least.
unfoldable pub parse_unsigned : ℕ → Text → Option ℕ
unfolding scan_digits
parse_unsigned largest [] = none
parse_unsigned largest (c ∷ []) = if is_digit c then scan_digits largest 0 (c ∷ []) else none
parse_unsigned largest (c ∷ d ∷ s) =
    if c == b'+' then scan_digits largest 0 (d ∷ s) else scan_digits largest 0 (c ∷ d ∷ s)
