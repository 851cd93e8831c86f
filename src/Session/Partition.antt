-- ===== src/Session/Partition.antt =====
-- The firmware of a prompt: what all turns begin with.
use ostk_cache.Prelude.{
  ℕ, zero, suc, ◌+◌, ◌≤◌, ◌≡◌, refl, ap, sym, subst, ◌∙◌, Bool, true, ◌||◌, ◌==◌, not, List, [],
  ◌∷◌, ◌++◌, some, Text, length, length-append, take, drop, take-append-drop, All, arith,
}
use ostk_cache.Prelude.Chars.{
  chars, concat, concat-chars, concat-append, AreChars, AreTails, chars-AreChars,
}
use ostk_cache.TranscriptTail.Written.{drop-length, take-length}
use ostk_cache.Session.{starts_char, is_char_boundary, last_of, split_last, render_partition}
use ostk_cache.Session.Match.{span, IsLcp, Agree, lcp_len-IsLcp, All-onto, onto-All}

split-span : (k : ℕ) (gs : List Text) → concat gs ≡ concat (take k gs) ++ concat (drop k gs)
split-span k gs = ap concat (sym (take-append-drop k gs)) ∙ concat-append (take k gs) (drop k gs)

take-span : (s : Text) (k : ℕ) → take (span k (chars s)) s ≡ concat (take k (chars s))
take-span s k =
    let gs = chars s in
    ap (take (span k gs)) (sym (concat-chars s) ∙ split-span k gs)
    ∙ take-length (concat (take k gs)) (concat (drop k gs))

drop-span : (s : Text) (k : ℕ) → drop (span k (chars s)) s ≡ concat (drop k (chars s))
drop-span s k =
    let gs = chars s in
    ap (drop (span k gs)) (sym (concat-chars s) ∙ split-span k gs)
    ∙ drop-length (concat (take k gs)) (concat (drop k gs))

span-le : (s : Text) (k : ℕ) → span k (chars s) ≤ length s
span-le s k =
    let gs = chars s in
    let e : length s ≡ span k gs + length (concat (drop k gs)) =
      ap length (sym (concat-chars s) ∙ split-span k gs)
      ∙ length-append (concat (take k gs)) (concat (drop k gs)) in
    omega arith

tails-start : (gs : List Text) → AreTails gs → starts_char (concat gs) ≡ true
unfolding starts_char concat
tails-start [] a = refl
tails-start ([] ∷ gs) a = absurd a
tails-start ((c ∷ g) ∷ gs) a = ap not a.0

drop-AreTails : (k : ℕ) (gs : List Text) → AreTails gs → AreTails (drop k gs)
drop-AreTails zero gs a = a
drop-AreTails (suc k) [] a = tt
drop-AreTails (suc k) ([] ∷ gs) a = absurd a
drop-AreTails (suc k) ((c ∷ g) ∷ gs) a = drop-AreTails k gs a.2

drop-AreChars : (k : ℕ) (gs : List Text) → AreChars gs → AreTails (drop (suc k) gs)
drop-AreChars k [] a = tt
drop-AreChars k ([] ∷ gs) a = absurd a
drop-AreChars k ((c ∷ g) ∷ gs) a = drop-AreTails k gs a.1

or_right : (b c : Bool) → c ≡ true → (b || c) ≡ true
or_right b c h = ground arith

-- A span ends where a character does.
span-boundary : (s : Text) (k : ℕ) → is_char_boundary s (span k (chars s)) ≡ true
unfolding is_char_boundary concat
span-boundary s zero = refl
span-boundary s (suc k) =
    or_right (span (suc k) (chars s) == 0) (starts_char (drop (span (suc k) (chars s)) s)) (
      ap starts_char (drop-span s (suc k))
      ∙ tails-start (drop (suc k) (chars s)) (drop-AreChars k (chars s) (chars-AreChars s)))

take_all : (gs : List Text) → take (length gs) gs ≡ gs
take_all [] = refl
take_all (g ∷ gs) = ap (◌∷◌ g) (take_all gs)

start-IsLcp : (first : Text) → IsLcp (chars first) [] (length first)
start-IsLcp first = record {
  k = length (chars first);
  bytes = ap length (sym (concat-chars first) ∙ ap concat (sym (take_all (chars first))));
  agree = tt;
  longest = λ j none_yet. span-le first j;
}

All-last : (P : Text → Type 0) (t : Text) (ts : List Text) → All P (t ∷ ts) → P (last_of t ts)
All-last P t [] a = a.0
All-last P t (u ∷ ts) a = All-last P u ts a.1

-- The two parts of a history: the firmware is so many first characters, on which all turns agree
-- and no longer ones do, and with the state it is the last turn.
pub record IsPartition (first second : Text) (history : List Text) (parts : Text × Text)
    : Type 0 where
  pub k : ℕ
  pub firmware : parts.0 ≡ concat (take k (chars first))
  pub agree : All (λ t. Agree k (chars first) (chars t)) (second ∷ history)
  pub longest :
      (j : ℕ)
      → All (λ t. Agree j (chars first) (chars t)) (second ∷ history)
      → span j (chars first) ≤ length parts.0
  pub joined : parts.0 ++ parts.1 ≡ last_of second history

split_last-some :
    (first last : Text) (k : ℕ)
    → Agree k (chars first) (chars last)
    → split_last first last (span k (chars first))
      ≡ some (concat (take k (chars first)), concat (drop k (chars last)))
unfolding split_last
split_last-some first last k a =
    let e : span k (chars first) ≡ span k (chars last) = ap (λ gs. length (concat gs)) a in
    let b : is_char_boundary last (span k (chars first)) ≡ true = rw e (span-boundary last k) in
    let d : drop (span k (chars first)) last ≡ concat (drop k (chars last)) =
      rw e (drop-span last k) in
    rw (span-boundary first k, b, take-span first k, d) refl

-- A history of two turns or more is parted without a panic: the firmware is as many of the first
-- characters of the first turn as all turns begin with, no run of first characters that all agree on
-- is longer, and firmware and state together are the last turn.
pub render-IsPartition :
    (first second : Text) (history : List Text)
    → (parts : Text × Text) × (render_partition (first ∷ second ∷ history) ≡ some parts)
      × IsPartition first second history parts
unfolding render_partition
render-IsPartition first second history =
    let last = last_of second history in
    let l = lcp_len-IsLcp first (second ∷ history) [] (length first) (start-IsLcp first) in
    let agree =
      (All-onto (λ t. Agree l.k (chars first) (chars t)) (second ∷ history) [] l.agree).0 in
    let a = All-last (λ t. Agree l.k (chars first) (chars t)) second history agree in
    (
      (concat (take l.k (chars first)), concat (drop l.k (chars last))),
      rw l.bytes (split_last-some first last l.k a),
      record {
        k = l.k;
        firmware = refl;
        agree = agree;
        longest = λ j all_agree.
            subst (λ n. span j (chars first) ≤ n) l.bytes
              (l.longest j (
                onto-All (λ t. Agree j (chars first) (chars t)) (second ∷ history) [] all_agree
                  tt));
        joined =
            ap (λ gs. concat gs ++ concat (drop l.k (chars last))) a
            ∙ sym (split-span l.k (chars last))
            ∙ concat-chars last;
      },
    )
