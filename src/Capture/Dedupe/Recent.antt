-- ===== src/Capture/Dedupe/Recent.antt =====
-- The deduplicating cache against a log of everything that was ever recorded.
use ostk_cache.Prelude.{
  ℕ, suc, ◌≤◌, ◌≡◌, Bool, ◌&&◌, List, [], ◌∷◌, ◌++◌, Text, if◌then◌else◌, any, All,
}
use ostk_cache.Capture.Dedupe.{DedupeEntry, DedupeCache, expire, same_key, check_and_record}
use ostk_cache.Capture.Dedupe.Window.{InOrder, last_n, is_fresh}

-- A question to the cache: the time, the session and the hash.
abbrev pub Call : Type 0
Call = ℕ × Text × Text

-- What the cache should answer: whether the key is among the entries recorded last, as many as the
-- capacity, and not older than the window.
pub recent : ℕ → Call → List DedupeEntry → Bool
unfolding is_fresh same_key
recent capacity (now, session, body_hash) log =
    any (λ e. is_fresh now e && same_key session body_hash e) (last_n capacity log)

-- The log grows by each call that is no duplicate.
pub logged : ℕ → Call → List DedupeEntry → List DedupeEntry
unfolding recent
logged capacity (now, session, body_hash) log =
    if recent capacity (now, session, body_hash) log
    then log
    else log ++ (record { session = session; body_hash = body_hash; seen_at = now }) ∷ []

pub answers : List Call → DedupeCache → List Bool
unfolding check_and_record
answers [] c = []
answers ((now, session, body_hash) ∷ calls) c =
    let (dup, c') = check_and_record now session body_hash c in dup ∷ answers calls c'

pub recent_answers : ℕ → List Call → List DedupeEntry → List Bool
unfolding recent logged
recent_answers capacity [] log = []
recent_answers capacity (call ∷ calls) log =
    recent capacity call log ∷ recent_answers capacity calls (logged capacity call log)

-- The clock does not run backwards.
abbrev pub InTime : ℕ → List Call → Type 0
InTime now [] = Unit
InTime now (call ∷ calls) = (now ≤ call.0) × InTime call.0 calls

-- The cache, after the call at a time, holds what the log recorded last and is not yet too old.
record Tracks (n now : ℕ) (c : DedupeCache) (log : List DedupeEntry) : Type 0 where
  window : c.entries ≡ expire now (last_n (suc n) log)
  bound : c.capacity ≡ suc n
  order : InOrder log
  past : All (λ d. d.seen_at ≤ now) log

module _ (n now : ℕ) (session body_hash : Text) (c : DedupeCache) (log : List DedupeEntry) where
  abbrev entry : DedupeEntry
  entry = record { session = session; body_hash = body_hash; seen_at = now }
