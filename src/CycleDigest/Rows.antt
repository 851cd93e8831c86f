-- ===== src/CycleDigest/Rows.antt =====
-- The rows of the file of digests: what a write adds, and which rows a session reads.
use ostk_cache.Prelude.{
  ℕ, suc, ◌-◌, ◌≡◌, refl, ap, sym, Bool, true, false, not, List, [], ◌∷◌, ◌++◌, append-nil, Option,
  some, Text, eqb, eqb_refl, length, length-append, drop-append, retain, retain-append, All,
  All-append_one, arith,
}
use ostk_cache.Prelude.Utf8.{valid_utf8}
use ostk_cache.TranscriptTail.Events.{filter_map, last_n, read_lines}
use ostk_cache.TranscriptTail.Written.{unlines, IsLine, unlines-append, read_lines-unlines}
use ostk_cache.CycleDigest.{
  CycleDigest, Serde, write_digest, read_recent_where, read_recent_for_session, read_recent_peers,
}

filter_map-append :
    {A B : Type 0} (f : A → Option B) (xs ys : List A)
    → filter_map f (xs ++ ys) ≡ filter_map f xs ++ filter_map f ys
unfolding filter_map
filter_map-append f [] ys = refl
filter_map-append f (x ∷ xs) ys = ground (arith, filter_map-append f xs ys)

filter_map-one :
    {A B : Type 0} (f : A → Option B) (x : A) (y : B)
    → f x ≡ some y
    → filter_map f (x ∷ []) ≡ y ∷ []
unfolding filter_map
filter_map-one f x y e = ground arith

last_n-append_one :
    {A : Type 0} (n : ℕ) (xs : List A) (x : A)
    → last_n (suc n) (xs ++ x ∷ []) ≡ last_n n xs ++ x ∷ []
last_n-append_one n xs x =
    let k : length (xs ++ x ∷ []) - suc n ≡ length xs - n =
      omega (arith, length-append xs (x ∷ [])) in
    rw k (drop-append (length xs - n) xs (x ∷ []) (omega arith))

-- The file of a writer of lines, and a digest whose row is a line that is read as it was written.
pub record Writable (serde : Serde) (ls : List Text) (digest : CycleDigest) : Type 0 where
  pub line : Text
  pub printed : serde.to_string digest ≡ some line
  pub parsed : serde.row line ≡ some digest
  pub ends : IsLine line
  pub valid : valid_utf8 line ≡ true
  pub all_end : All IsLine ls
  pub all_valid : All (λ l. valid_utf8 l ≡ true) ls

module _ (serde : Serde) (ls : List Text) (digest : CycleDigest)
    (w : Writable serde ls digest) where
  abbrev before : Option Text
  before = some (unlines ls)

  abbrev after : Option Text
  after = some (write_digest serde (some (unlines ls)) digest)

  written : write_digest serde (some (unlines ls)) digest ≡ unlines (ls ++ w.line ∷ [])
  unfolding write_digest unlines
  written = rw w.printed (sym (unlines-append ls (w.line ∷ [])))

  rows_written :
      filter_map serde.row (read_lines (write_digest serde (some (unlines ls)) digest))
      ≡ filter_map serde.row (read_lines (unlines ls)) ++ digest ∷ []
  rows_written =
      rw
        (
          written,
          read_lines-unlines (ls ++ w.line ∷ []) (All-append_one IsLine ls w.line w.all_end w.ends)
              (All-append_one (λ l. valid_utf8 l ≡ true) ls w.line w.all_valid w.valid),
          read_lines-unlines ls w.all_end w.all_valid,
          filter_map-append serde.row ls (w.line ∷ []),
        )
        (ap (λ ds. filter_map serde.row ls ++ ds) (filter_map-one serde.row w.line digest w.parsed))

  retained :
      (pred : CycleDigest → Bool)
      → retain pred
          (filter_map serde.row (read_lines (write_digest serde (some (unlines ls)) digest)))
        ≡ retain pred (filter_map serde.row (read_lines (unlines ls))) ++ retain pred (digest ∷ [])
  retained pred =
      rw rows_written
        (retain-append pred (filter_map serde.row (read_lines (unlines ls))) (digest ∷ []))

  where_seen :
      (n : ℕ) (pred : CycleDigest → Bool)
      → pred digest ≡ true
      → read_recent_where serde after (suc n) pred
        ≡ read_recent_where serde before n pred ++ digest ∷ []
  unfolding read_recent_where retain
  where_seen n pred h =
      rw (retained pred, h)
        (last_n-append_one n (retain pred (filter_map serde.row (read_lines (unlines ls)))) digest)

  where_unseen :
      (n : ℕ) (pred : CycleDigest → Bool)
      → pred digest ≡ false
      → read_recent_where serde after n pred ≡ read_recent_where serde before n pred
  unfolding read_recent_where retain
  where_unseen n pred h =
      rw
        (
          retained pred,
          h,
          append-nil (retain pred (filter_map serde.row (read_lines (unlines ls)))),
        )
        refl

  -- Where each line of the file is UTF-8 and ends in a newline, and the row of a digest is such a
  -- line and is parsed as the digest again: once written, the digest is the last that its session
  -- reads, before it what was read then, and the last that another session reads of its peers; what
  -- its session reads of its peers, and what the other reads of its own, stays.
  pub write-Seen :
      (n : ℕ) (other : Text)
      → eqb digest.session other ≡ false
      → (read_recent_for_session serde after digest.session (suc n)
          ≡ read_recent_for_session serde before digest.session n ++ digest ∷ [])
        × (read_recent_peers serde after other (suc n)
            ≡ read_recent_peers serde before other n ++ digest ∷ [])
        × (read_recent_peers serde after digest.session n
            ≡ read_recent_peers serde before digest.session n)
        × (read_recent_for_session serde after other n
            ≡ read_recent_for_session serde before other n)
  unfolding read_recent_for_session read_recent_peers
  write-Seen n other h =
      let same : eqb digest.session digest.session ≡ true = eqb_refl digest.session in
      (
        where_seen n (λ d. eqb d.session digest.session) same,
        where_seen n (λ d. not (eqb d.session other)) (ap not h),
        where_unseen n (λ d. not (eqb d.session digest.session)) (ap not same),
        where_unseen n (λ d. eqb d.session other) h,
      )
