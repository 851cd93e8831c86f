-- ===== src/ReminderStrip/Scan.antt =====
-- The loop of src/system_reminder_strip.rs against a description of the blocks that it cuts.
use ostk_cache.Prelude.{
  ℕ, zero, suc, ◌+◌, ◌≤◌, ◌<◌, ◌≡◌, refl, ap, ◌∙◌, sym, [], ◌∷◌, ◌++◌, Option, none, some, Text,
  arith, length, length-append, append_assoc, Bool-cases, Option-cases, inl, inr, ◌==◌,
  if◌then◌else◌,
}
use mathlib.Core.Path.{subst₂}
use ostk_cache.ReminderStrip.{
  open_tag, close_tag, SystemReminderStats, find, drop_newline, removed, scan, stats_of,
  strip_reminders_in_str,
}
use ostk_cache.ReminderStrip.Find.{append_split, find_sound, find_first, find-none}

-- A block: an open tag, anything, and a close tag behind it.
pub record Block (s : Text) : Type 0 where
  pub before : Text
  pub inner : Text
  pub after : Text
  pub spelled : s ≡ before ++ (open_tag ++ (inner ++ (close_tag ++ after)))

-- A block that starts at the first open tag and ends at the first close tag behind that.
pub record FirstBlock (s before inner after : Text) : Type 0 where
  pub spelled : s ≡ before ++ (open_tag ++ (inner ++ (close_tag ++ after)))
  pub first_open : (a b : Text) → s ≡ a ++ (open_tag ++ b) → length before ≤ length a
  pub first_close :
      (a b : Text) → inner ++ (close_tag ++ after) ≡ a ++ (close_tag ++ b) → length inner ≤ length a

-- `Cleaned s out n bytes`: cutting blocks from the left, each with a newline behind it, leaves
-- `out` of `s`, after `n` cuts of `bytes` bytes in all, and no block is left in the rest.
pub data Cleaned : Text → Text → ℕ → ℕ → Type 0 where
  rest : {s : Text} → ¬ Block s → Cleaned s s 0 0
  cut :
      {s before inner after out : Text} {n bytes : ℕ}
      → FirstBlock s before inner after
      → Cleaned (drop_newline after) out n bytes
      → Cleaned s (before ++ out) (suc n) (removed inner after + bytes)

no_open : (s : Text) → find open_tag s ≡ none → ¬ Block s
no_open s e k = find-none open_tag s k.before _ (λ z. cc z) e k.spelled

no_close :
    (s before body : Text)
    → find open_tag s ≡ some (before, body)
    → find close_tag body ≡ none
    → ¬ Block s
no_close s before body e z k =
    let start = before ++ open_tag in
    let other = k.before ++ open_tag in
    let split =
      append_split start body other (k.inner ++ (close_tag ++ k.after))
        (append_assoc before open_tag body
          ∙ sym (find_sound open_tag s before body e)
          ∙ k.spelled
          ∙ sym (append_assoc k.before open_tag _))
        (omega (
          arith,
          length-append before open_tag,
          length-append k.before open_tag,
          find_first open_tag s before body k.before _ e k.spelled,
        )) in
    find-none close_tag body (split.0 ++ k.inner) k.after (λ x. cc x) z
      (split.1 ∙ sym (append_assoc split.0 k.inner _))

drop_newline_le : (s : Text) → length (drop_newline s) ≤ length s
unfolding drop_newline
drop_newline_le [] = omega arith
drop_newline_le (c ∷ cs) = ground arith

found :
    (s before body inner after : Text)
    → find open_tag s ≡ some (before, body)
    → find close_tag body ≡ some (inner, after)
    → FirstBlock s before inner after
found s before body inner after e z = record {
  spelled =
      find_sound open_tag s before body e
      ∙ ap (λ (x : Text). before ++ (open_tag ++ x)) (find_sound close_tag body inner after z);
  first_open = λ a b eq. find_first open_tag s before body a b e eq;
  first_close = λ a b eq.
      find_first close_tag body inner after a b z (find_sound close_tag body inner after z ∙ eq);
}

FirstBlock-length :
    (s before inner after : Text)
    → FirstBlock s before inner after
    → length s ≡ length before + (17 + (length inner + (18 + length after)))
FirstBlock-length s before inner after f = omega (
  arith,
  ap (length {0}) f.spelled,
  length-append before (open_tag ++ (inner ++ (close_tag ++ after))),
  length-append inner (close_tag ++ after),
)

removed_lem :
    (inner after : Text)
    → removed inner after + length (drop_newline after) ≡ 17 + (length inner + (18 + length after))
unfolding removed
removed_lem inner after = omega (arith, drop_newline_le after)

-- What is left and what was cut are as long as the text.
pub Cleaned-length :
    {s out : Text} {n bytes : ℕ} → Cleaned s out n bytes → length out + bytes ≡ length s
Cleaned-length (rest h) = omega arith
Cleaned-length (cut {s} {before} {inner} {after} {out} f k) = omega (
  arith,
  length-append before out,
  FirstBlock-length s before inner after f,
  removed_lem inner after,
  Cleaned-length k,
)

-- What `scan` has made, from any point of the loop.
record Scanned (s before : Text) (blocks bytes : ℕ) (r : Text × ℕ × ℕ) : Type 0 where
  out : Text
  cuts : ℕ
  cut_bytes : ℕ
  cleaned : Cleaned s out cuts cut_bytes
  text_is : r.0 ≡ before ++ out
  blocks_are : r.1 ≡ blocks + cuts
  bytes_are : r.2 ≡ bytes + cut_bytes

Scanned-rest :
    (s before : Text) (blocks bytes : ℕ)
    → ¬ Block s
    → Scanned s before blocks bytes (before ++ s, blocks, bytes)
Scanned-rest s before blocks bytes h = record {
  out = s;
  cuts = 0;
  cut_bytes = 0;
  cleaned = rest h;
  text_is = refl;
  blocks_are = omega arith;
  bytes_are = omega arith;
}

Scanned-cut :
    (s before inner after done : Text) (blocks bytes : ℕ) (r : Text × ℕ × ℕ)
    → FirstBlock s before inner after
    → Scanned (drop_newline after) (done ++ before) (blocks + 1) (bytes + removed inner after) r
    → Scanned s done blocks bytes r
Scanned-cut s before inner after done blocks bytes r f x = record {
  out = before ++ x.out;
  cuts = suc x.cuts;
  cut_bytes = removed inner after + x.cut_bytes;
  cleaned = cut f x.cleaned;
  text_is = x.text_is ∙ append_assoc done before x.out;
  blocks_are = omega (arith, x.blocks_are);
  bytes_are = omega (arith, x.bytes_are);
}

no_room : (s : Text) → length s ≤ 0 → ¬ Block s
no_room [] h k = omega (
  arith,
  ap (length {0}) k.spelled,
  length-append k.before (open_tag ++ (k.inner ++ (close_tag ++ k.after))),
)
no_room (c ∷ cs) h k = absurd (omega arith)

scan_no_open :
    (fuel : ℕ) (s done : Text) (blocks bytes : ℕ)
    → find open_tag s ≡ none
    → scan (suc fuel) s done blocks bytes ≡ (done ++ s, blocks, bytes)
unfolding scan
scan_no_open fuel s done blocks bytes e = ground arith

scan_no_close :
    (fuel : ℕ) (s before body done : Text) (blocks bytes : ℕ)
    → find open_tag s ≡ some (before, body)
    → find close_tag body ≡ none
    → scan (suc fuel) s done blocks bytes ≡ (done ++ s, blocks, bytes)
unfolding scan
scan_no_close fuel s before body done blocks bytes e z = ground arith

scan_block :
    (fuel : ℕ) (s before body inner after done : Text) (blocks bytes : ℕ)
    → find open_tag s ≡ some (before, body)
    → find close_tag body ≡ some (inner, after)
    → scan (suc fuel) s done blocks bytes
      ≡ scan fuel (drop_newline after) (done ++ before) (blocks + 1) (bytes + removed inner after)
unfolding scan
scan_block fuel s before body inner after done blocks bytes e z = ground arith

scan-Scanned :
    (fuel : ℕ) (s done : Text) (blocks bytes : ℕ)
    → length s ≤ fuel
    → Scanned s done blocks bytes (scan fuel s done blocks bytes)
scan-Scanned zero s done blocks bytes h =
    unfold scan in Scanned-rest s done blocks bytes (no_room s (omega arith))
scan-Scanned (suc fuel) s done blocks bytes h = elim (Option-cases (find open_tag s)) [
  | inl e ↦
      rw (scan_no_open fuel s done blocks bytes e) (Scanned-rest s done blocks bytes (no_open s e))
  | inr (r, e) ↦ elim (Option-cases (find close_tag r.1)) [
    | inl z ↦
        rw (scan_no_close fuel s r.0 r.1 done blocks bytes e z)
          (Scanned-rest s done blocks bytes (no_close s r.0 r.1 e z))
    | inr (q, z) ↦
        let f = found s r.0 r.1 q.0 q.1 e z in
        rw (scan_block fuel s r.0 r.1 q.0 q.1 done blocks bytes e z) (
          Scanned-cut s r.0 q.0 q.1 done blocks bytes _ f (
            scan-Scanned fuel (drop_newline q.1) (done ++ r.0) (blocks + 1)
              (bytes + removed q.0 q.1)
              (omega (arith, FirstBlock-length s r.0 q.0 q.1 f, drop_newline_le q.1))))
  ]
]

-- What a result of the strip says of the text.
abbrev pub Describes : Text → Option (Text × SystemReminderStats) → Type 0
Describes s none = ¬ Block s
Describes s (some (out, stats)) =
    Cleaned s out stats.blocks_removed stats.bytes_removed × (0 < stats.blocks_removed)

zero_cuts : {s out : Text} {n bytes : ℕ} → Cleaned s out n bytes → n ≡ 0 → ¬ Block s
zero_cuts (rest h) e = h
zero_cuts (cut f k) e = absurd (omega arith)

Scanned-Describes :
    (s text : Text) (blocks bytes : ℕ)
    → Scanned s [] 0 0 (text, blocks, bytes)
    → Describes s (if blocks == 0 then none else some (text, stats_of blocks bytes))
unfolding stats_of
Scanned-Describes s text blocks bytes x = elim (Bool-cases (blocks == 0)) [
  | inl z ↦ rw z (zero_cuts x.cleaned (ground arith))
  | inr p ↦
      let e : x.cuts ≡ blocks = omega (arith, x.blocks_are) in
      let b : x.cut_bytes ≡ bytes = omega (arith, x.bytes_are) in
      rw p (subst₂ (λ n m. Cleaned s text n m) e b (rw x.text_is x.cleaned), ground arith)
]

-- The strip of any text returns nothing where the text holds no block, and otherwise the text that
-- cutting the first block, with a newline behind it, again and again leaves until no block is in
-- the rest, with the positive number of blocks and the bytes cut.
pub strip_reminders-Describes : (s : Text) → Describes s (strip_reminders_in_str s)
unfolding strip_reminders_in_str
strip_reminders-Describes s = elim (Option-cases (find open_tag s)) [
  | inl e ↦ rw e (no_open s e)
  | inr (r, e) ↦ rw e (Scanned-Describes s _ _ _ (scan-Scanned (length s) s [] 0 0 (omega arith)))
]
