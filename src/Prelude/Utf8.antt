-- ===== src/Prelude/Utf8.antt =====
-- Two readings of bytes as UTF-8: `str::from_utf8` and `trim_end`.
use ostk_cache.Prelude.{
  ℕ, ◌-◌, Bool, true, false, ◌&&◌, ◌||◌, [], ◌∷◌, Option, none, some, Text, leb, ◌==◌,
  if◌then◌else◌,
}

-- How many more bytes a character has, and the range of the next of them.
pub record Pending : Type 0 where
  pub more : ℕ
  pub low : ℕ
  pub high : ℕ

abbrev pub complete : Pending
complete = record { more = 0; low = 0; high = 0x7f }

abbrev pub within : ℕ → ℕ → ℕ → Bool
within low high b = leb low b && leb b high

unfoldable pub first_byte : ℕ → Option Pending
first_byte b =
    if leb b 0x7f
    then some complete
    else if within 0xc2 0xdf b
    then some (record { more = 1; low = 0x80; high = 0xbf })
    else if b == 0xe0
    then some (record { more = 2; low = 0xa0; high = 0xbf })
    else if b == 0xed
    then some (record { more = 2; low = 0x80; high = 0x9f })
    else if within 0xe1 0xef b
    then some (record { more = 2; low = 0x80; high = 0xbf })
    else if b == 0xf0
    then some (record { more = 3; low = 0x90; high = 0xbf })
    else if within 0xf1 0xf3 b
    then some (record { more = 3; low = 0x80; high = 0xbf })
    else if b == 0xf4
    then some (record { more = 3; low = 0x80; high = 0x8f })
    else none

unfoldable pub next_byte : Pending → ℕ → Option Pending
unfolding first_byte
next_byte p b =
    if p.more == 0
    then first_byte b
    else if within p.low p.high b
    then some (record { more = p.more - 1; low = 0x80; high = 0xbf })
    else none

unfoldable pub valid_from : Pending → Text → Bool
unfolding next_byte
valid_from p [] = p.more == 0
valid_from p (b ∷ s) = elim (next_byte p b) [ none ↦ false | some q ↦ valid_from q s ]

unfoldable pub valid_utf8 : Text → Bool
unfolding valid_from
valid_utf8 s = valid_from complete s

-- Characters of `White_Space`, by their one, two or three bytes.
blank1 : ℕ → Bool
blank1 a = within 9 13 a || a == 32

blank2 : ℕ → ℕ → Bool
blank2 a b = a == 0xc2 && (b == 0x85 || b == 0xa0)

blank3 : ℕ → ℕ → ℕ → Bool
blank3 a b c =
    a == 0xe1 && (b == 0x9a && c == 0x80)
    || (a == 0xe2
          && (b == 0x80 && (within 0x80 0x8a c || (c == 0xa8 || (c == 0xa9 || c == 0xaf)))
              || (b == 0x81 && c == 0x9f))
        || a == 0xe3 && (b == 0x80 && c == 0x80))

unfoldable pub all_blank : Text → Bool
unfolding blank1 blank2 blank3
all_blank [] = true
all_blank (a ∷ []) = blank1 a
all_blank (a ∷ b ∷ []) = blank1 a && blank1 b || blank2 a b
all_blank (a ∷ b ∷ c ∷ s) =
    blank1 a && all_blank (b ∷ c ∷ s)
    || (blank2 a b && all_blank (c ∷ s) || blank3 a b c && all_blank s)

unfoldable pub trim_end : Text → Text
unfolding all_blank
trim_end [] = []
trim_end (a ∷ s) = if all_blank (a ∷ s) then [] else a ∷ trim_end s

-- `trim_start` and `trim`.
unfoldable pub trim_start : Text → Text
unfolding blank1 blank2 blank3
trim_start [] = []
trim_start (a ∷ []) = if blank1 a then [] else a ∷ []
trim_start (a ∷ b ∷ []) =
    let rest = trim_start (b ∷ []) in
    if blank1 a then rest else if blank2 a b then [] else a ∷ b ∷ []
trim_start (a ∷ b ∷ c ∷ s) =
    let rest1 = trim_start (b ∷ c ∷ s) in
    let rest2 = trim_start (c ∷ s) in
    let rest3 = trim_start s in
    if blank1 a
    then rest1
    else if blank2 a b
    then rest2
    else if blank3 a b c
    then rest3
    else a ∷ b ∷ c ∷ s

unfoldable pub trim : Text → Text
unfolding trim_start trim_end
trim s = trim_start (trim_end s)
