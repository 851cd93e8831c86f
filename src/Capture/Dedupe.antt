-- ===== src/Capture/Dedupe.antt =====
-- `DedupeCache` of crates/ostk-cache-core/src/capture.rs. An `Instant` is a number of nanoseconds,
-- and `duration_since` stops at zero, as `-` does.
pub mod Window
pub mod Recent
use ostk_cache.Prelude.{
  ℕ, ◌-◌, ◌*◌, Bool, true, false, ◌&&◌, List, [], ◌∷◌, ◌++◌, Text, eqb, ltb, leb, if◌then◌else◌,
  length, any,
}

abbrev pub dedupe_window_secs : ℕ
dedupe_window_secs = 60

abbrev pub window_nanos : ℕ
window_nanos = dedupe_window_secs * 1000000000

pub record DedupeEntry : Type 0 where
  pub session : Text
  pub body_hash : Text
  pub seen_at : ℕ

-- The oldest entry stands first.
pub record DedupeCache : Type 0 where
  pub entries : List DedupeEntry
  pub capacity : ℕ

abbrev pub new : ℕ → DedupeCache
new capacity = record { entries = []; capacity = capacity }

unfoldable pub expire : ℕ → List DedupeEntry → List DedupeEntry
expire now [] = []
expire now (e ∷ es) =
    let rest = expire now es in if ltb window_nanos (now - e.seen_at) then rest else e ∷ es

unfoldable pub same_key : Text → Text → DedupeEntry → Bool
same_key session body_hash e = eqb e.session session && eqb e.body_hash body_hash

unfoldable pub pop_front : List DedupeEntry → List DedupeEntry
pop_front [] = []
pop_front (e ∷ es) = es

unfoldable pub make_room : ℕ → List DedupeEntry → List DedupeEntry
unfolding pop_front
make_room capacity es = if leb capacity (length es) then pop_front es else es

-- The answer, and the cache after it.
unfoldable pub check_and_record : ℕ → Text → Text → DedupeCache → Bool × DedupeCache
unfolding expire same_key make_room
check_and_record now session body_hash c =
    let es = expire now c.entries in
    let e : DedupeEntry = record { session = session; body_hash = body_hash; seen_at = now } in
    if any (same_key session body_hash) es
    then (true, record c { entries = es })
    else (false, record c { entries = make_room c.capacity es ++ e ∷ [] })
