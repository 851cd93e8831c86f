-- ===== src/Size.antt =====
-- Byte sizes. `serde_json::to_string` is not of this repository, and so a parameter, as is the
-- printing of a quotient with one decimal, which is floating point; `fmt_bytes` is of src/lib.rs.
pub mod Decimal
use ostk_cache.Prelude.{
  ℕ, zero, suc, ◌+◌, ◌*◌, ◌/◌, ◌%◌, [], ◌∷◌, ◌++◌, Option, none, some, Text, codes, length, leb,
  ltb, if◌then◌else◌,
}
use ostk_cache.Json.{Value}

pub record Printer : Type 0 where
  pub to_string : Value → Option Text
  -- `format!("{:.1}", n as f64 / d)`
  pub one_decimal : ℕ → ℕ → Text

-- `serde_json::to_string(v).map(|s| s.len()).unwrap_or(0)`
unfoldable pub json_size : Printer → Value → ℕ
json_size out v = elim (out.to_string v) [ none ↦ 0 | some s ↦ length s ]

-- The decimal digits of a number, given at least as much fuel as it has digits.
digits : ℕ → ℕ → Text
digits zero n = []
digits (suc fuel) n =
    let rest = digits fuel (n / 10) in (if ltb n 10 then [] else rest) ++ (b'0' + n % 10) ∷ []

unfoldable pub decimal : ℕ → Text
unfolding digits
decimal n = digits 20 n

unfoldable pub fmt_bytes : Printer → ℕ → Text
fmt_bytes out n =
    if leb (1024 * 1024) n
    then out.one_decimal n (1024 * 1024) ++ codes "MB"
    else if leb (10 * 1024) n
    then out.one_decimal n 1024 ++ codes "KB"
    else decimal n ++ codes "b"
