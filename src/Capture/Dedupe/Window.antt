-- ===== src/Capture/Dedupe/Window.antt =====
-- What is in the window of the deduplicating cache: expiry, and the entries recorded last.
use ostk_cache.Prelude.{
  All-append_one, drop-append, ℕ, zero, suc, ◌-◌, ◌≤◌, ◌<◌, ◌≡◌, refl, Bool, true, false, ◌&&◌,
  List, [], ◌∷◌, ◌++◌, arith, leb, length, drop, any, All, length-append, length-drop, Bool-cases,
  inl, inr, ap, leb→le, leb→lt, sym, ◌∙◌,
}
use ostk_cache.Capture.Dedupe.{DedupeEntry, window_nanos, expire, make_room, pop_front}

-- Times grow along a list of entries.
abbrev pub InOrder : List DedupeEntry → Type 0
InOrder [] = Unit
InOrder (e ∷ es) = All (λ d. e.seen_at ≤ d.seen_at) es × InOrder es

abbrev pub last_n : ℕ → List DedupeEntry → List DedupeEntry
last_n n es = drop (length es - n) es

unfoldable pub is_fresh : ℕ → DedupeEntry → Bool
is_fresh now e = leb (now - e.seen_at) window_nanos

pub expire-nil : (now : ℕ) → expire now [] ≡ []
unfolding expire
expire-nil now = refl

pub expire-fresh :
    (now : ℕ) (e : DedupeEntry) (es : List DedupeEntry)
    → is_fresh now e ≡ true
    → expire now (e ∷ es) ≡ e ∷ es
unfolding expire is_fresh
expire-fresh now e es h = ground arith

pub expire-stale :
    (now : ℕ) (e : DedupeEntry) (es : List DedupeEntry)
    → is_fresh now e ≡ false
    → expire now (e ∷ es) ≡ expire now es
unfolding expire is_fresh
expire-stale now e es h = ground arith

pub is_fresh_mono :
    (now now' : ℕ) (e : DedupeEntry) → now ≤ now' → is_fresh now e ≡ false → is_fresh now' e ≡ false
unfolding is_fresh
is_fresh_mono now now' e h f = ground arith

pub is_fresh_later :
    (now : ℕ) (e d : DedupeEntry)
    → e.seen_at ≤ d.seen_at
    → is_fresh now e ≡ true
    → is_fresh now d ≡ true
unfolding is_fresh
is_fresh_later now e d h f = ground arith

pub All_fresh :
    (now : ℕ) (e : DedupeEntry) (es : List DedupeEntry)
    → is_fresh now e ≡ true
    → All (λ d. e.seen_at ≤ d.seen_at) es
    → All (λ d. is_fresh now d ≡ true) es
All_fresh now e [] f s = tt
All_fresh now e (d ∷ es) f s = (is_fresh_later now e d s.0 f, All_fresh now e es f s.1)

pub any_fresh :
    (now : ℕ) (p : DedupeEntry → Bool) (es : List DedupeEntry)
    → All (λ d. is_fresh now d ≡ true) es
    → any (λ e. is_fresh now e && p e) es ≡ any p es
unfolding any
any_fresh now p [] s = refl
any_fresh now p (e ∷ es) s = rw (s.0, any_fresh now p es s.1) refl

pub any_stale :
    (now : ℕ) (p : DedupeEntry → Bool) (e : DedupeEntry) (es : List DedupeEntry)
    → is_fresh now e ≡ false
    → any (λ e. is_fresh now e && p e) (e ∷ es) ≡ any (λ e. is_fresh now e && p e) es
unfolding any
any_stale now p e es f = rw f refl

-- Expiring again, later, expires what is left as it would have expired all.
pub expire-expire :
    (now now' : ℕ) (es : List DedupeEntry)
    → now ≤ now'
    → expire now' (expire now es) ≡ expire now' es
expire-expire now now' [] h = ap (expire now') (expire-nil now)
expire-expire now now' (e ∷ es) h = elim (Bool-cases (is_fresh now e)) [
  | inl f ↦ ap (expire now') (expire-fresh now e es f)
  | inr f ↦
      rw (expire-stale now e es f)
        (expire-expire now now' es h ∙ sym (expire-stale now' e es (is_fresh_mono now now' e h f)))
]

-- What is left, the test of age finds again in the whole list.
pub any-expire :
    (now : ℕ) (p : DedupeEntry → Bool) (es : List DedupeEntry)
    → InOrder es
    → any p (expire now es) ≡ any (λ e. is_fresh now e && p e) es
unfolding any
any-expire now p [] s = rw (expire-nil now) refl
any-expire now p (e ∷ es) s = elim (Bool-cases (is_fresh now e)) [
  | inl f ↦
      rw (expire-fresh now e es f) (sym (any_fresh now p (e ∷ es) (f, All_fresh now e es f s.0)))
  | inr f ↦ rw (expire-stale now e es f) (any-expire now p es s.1 ∙ sym (any_stale now p e es f))
]

pub expire-append_now :
    (now : ℕ) (e : DedupeEntry) (es : List DedupeEntry)
    → e.seen_at ≡ now
    → expire now (es ++ e ∷ []) ≡ expire now es ++ e ∷ []
unfolding expire
expire-append_now now e [] h = ground arith
expire-append_now now e (d ∷ es) h = ground (arith, expire-append_now now e es)

pub expire-eq_of_fresh :
    (now : ℕ) (es : List DedupeEntry) → All (λ d. is_fresh now d ≡ true) es → expire now es ≡ es
expire-eq_of_fresh now [] s = expire-nil now
expire-eq_of_fresh now (e ∷ es) s = expire-fresh now e es s.0

pub length-expire : (now : ℕ) (es : List DedupeEntry) → length (expire now es) ≤ length es
unfolding expire
length-expire now [] = omega arith
length-expire now (e ∷ es) = ground (arith, length-expire now es)

pub make_room_free : (n : ℕ) (es : List DedupeEntry) → length es < n → make_room n es ≡ es
unfolding make_room
make_room_free n es h = ground arith

pub make_room_full :
    (n : ℕ) (e : DedupeEntry) (es : List DedupeEntry)
    → n ≤ length (e ∷ es)
    → make_room n (e ∷ es) ≡ es
unfolding make_room
make_room_full n e es h = ground arith

pub make_room_fresh :
    (now n : ℕ) (d : DedupeEntry) (es : List DedupeEntry)
    → is_fresh now d ≡ true
    → InOrder (d ∷ es)
    → All (λ e. is_fresh now e ≡ true) (make_room (suc n) (d ∷ es))
unfolding make_room
make_room_fresh now n d es f s = elim (Bool-cases (leb (suc n) (suc (length es)))) [
  | inl full ↦ rw full (All_fresh now d es f s.0)
  | inr free ↦ rw free (f, All_fresh now d es f s.0)
]

-- Room is made after the old entries have expired as it would have been made before.
pub expire-make_room :
    (now n : ℕ) (es : List DedupeEntry)
    → InOrder es
    → length es ≤ suc n
    → expire now (make_room (suc n) es) ≡ make_room (suc n) (expire now es)
expire-make_room now n [] s h =
    rw (expire-nil now, make_room_free (suc n) [] (omega arith)) (expire-nil now)
expire-make_room now n (d ∷ es) s h = elim (Bool-cases (is_fresh now d)) [
  | inl f ↦ rw (expire-fresh now d es f) (expire-eq_of_fresh now _ (make_room_fresh now n d es f s))
  | inr f ↦ elim (Bool-cases (leb (suc n) (suc (length es)))) [
    | inl full ↦
        let le : suc n ≤ suc (length es) = leb→le _ _ full in
        rw (make_room_full (suc n) d es le, expire-stale now d es f)
          (sym (make_room_free (suc n) (expire now es) (omega (arith, length-expire now es))))
    | inr free ↦
        let lt : suc (length es) < suc n = leb→lt _ _ free in
        rw (make_room_free (suc n) (d ∷ es) lt, expire-stale now d es f)
          (sym (make_room_free (suc n) (expire now es) (omega (arith, length-expire now es))))
  ]
]

pub drop-nil : (k : ℕ) → drop {A = DedupeEntry} k [] ≡ []
drop-nil zero = refl
drop-nil (suc k) = refl

pub pop_front-drop : (k : ℕ) (xs : List DedupeEntry) → pop_front (drop k xs) ≡ drop (suc k) xs
unfolding pop_front
pop_front-drop zero [] = refl
pop_front-drop zero (x ∷ xs) = refl
pop_front-drop (suc k) [] = refl
pop_front-drop (suc k) (x ∷ xs) = pop_front-drop k xs

pub make_room_pop : (n : ℕ) (es : List DedupeEntry) → n ≤ length es → make_room n es ≡ pop_front es
unfolding make_room
make_room_pop n es h = ground arith

-- What was recorded last, after one entry more.
pub last_n_room :
    (n : ℕ) (e : DedupeEntry) (log : List DedupeEntry)
    → last_n (suc n) (log ++ e ∷ []) ≡ make_room (suc n) (last_n (suc n) log) ++ e ∷ []
last_n_room n e log = elim (Bool-cases (leb (suc n) (length log))) [
  | inl full ↦
      let le : suc n ≤ length log = leb→le _ _ full in
      let k : length (log ++ e ∷ []) - suc n ≡ suc (length log - suc n) =
        omega (arith, length-append {0} log (e ∷ [])) in
      rw
        (
          k,
          make_room_pop (suc n) (last_n (suc n) log)
              (omega (arith, length-drop {0} (length log - suc n) log)),
          pop_front-drop,
        )
        (drop-append (suc (length log - suc n)) log (e ∷ []) (omega arith))
  | inr free ↦
      let lt : length log < suc n = leb→lt _ _ free in
      let k : length (log ++ e ∷ []) - suc n ≡ 0 = omega (arith, length-append {0} log (e ∷ [])) in
      let k' : length log - suc n ≡ 0 = omega arith in
      rw (k, k') (ap (λ l. l ++ e ∷ []) (sym (make_room_free (suc n) log lt)))
]

pub length-last_n : (n : ℕ) (log : List DedupeEntry) → length (last_n n log) ≤ n
length-last_n n log = omega (arith, length-drop {0} (length log - n) log)

pub InOrder-drop : (k : ℕ) (xs : List DedupeEntry) → InOrder xs → InOrder (drop k xs)
InOrder-drop zero xs s = s
InOrder-drop (suc k) [] s = tt
InOrder-drop (suc k) (x ∷ xs) s = InOrder-drop k xs s.1

pub InOrder-append :
    (e : DedupeEntry) (xs : List DedupeEntry)
    → InOrder xs
    → All (λ d. d.seen_at ≤ e.seen_at) xs
    → InOrder (xs ++ e ∷ [])
InOrder-append e [] s a = (tt, tt)
InOrder-append e (x ∷ xs) s a =
    (All-append_one (λ d. x.seen_at ≤ d.seen_at) xs e s.0 a.0, InOrder-append e xs s.1 a.1)

pub All-le_later :
    (now now' : ℕ) (xs : List DedupeEntry)
    → now ≤ now'
    → All (λ d. d.seen_at ≤ now) xs
    → All (λ d. d.seen_at ≤ now') xs
All-le_later now now' [] h a = tt
All-le_later now now' (x ∷ xs) h a = (omega arith, All-le_later now now' xs h a.1)
