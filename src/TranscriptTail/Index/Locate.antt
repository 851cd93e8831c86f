-- ===== src/TranscriptTail/Index/Locate.antt =====
-- The locators of a transcript's index, and its events.
use ostk_cache.Prelude.{
  ℕ, ◌≡◌, refl, ap, sym, subst, ◌∙◌, Bool, true, false, List, [], ◌∷◌, ◌++◌, append_assoc,
  append-nil, Option, none, some, Text, eqb, eqb_iff, eqb_refl, ◌||◌, arith, ◌>>=◌, length, take,
  drop, length-append, get_elem?, All, Bool-cases, inl, inr,
}
use ostk_cache.Prelude.Utf8.{valid_utf8}
use ostk_cache.TranscriptTail.Events.{TailEvent, Serde, parse_event}
use ostk_cache.TranscriptTail.Index.{
  ToolBodyLocator, Scan, at_start, insert_locator, insert_found, result_id, locator, note_event,
  noted, scan_line, scan_lines, build_tail_index,
}
use ostk_cache.TranscriptTail.Written.{
  unlines, IsLine, read_lines-unlines, unlines-append, drop-length, take-length, get_elem?-length,
}

-- The tool call that a line is the result of.
pub result_of : Serde → Text → Option Text
result_of serde line = parse_event serde line >>= λ ev. result_id ev.kind ev.tool_use_id

-- A locator of a line of a transcript: its bytes are where it says, and it is the result of the call.
pub record Locates (serde : Serde) (ls : List Text) (id : Text) (k : ToolBodyLocator) : Type 0 where
  pub line : Text
  pub indexed : get_elem? ls k.line_index ≡ some line
  pub bytes : take k.byte_len (drop k.byte_offset (unlines ls)) ≡ line
  pub keyed : k.tool_use_id ≡ id
  pub answers : result_of serde line ≡ some id

abbrev pub AllLocate : Serde → List Text → List (Text × ToolBodyLocator) → Type 0
AllLocate serde ls m = All (λ e. Locates serde ls e.0 e.1) m

insert-AllLocate :
    (serde : Serde) (ls : List Text) (id : Text) (k : ToolBodyLocator)
    (m : List (Text × ToolBodyLocator))
    → Locates serde ls id k
    → AllLocate serde ls m
    → AllLocate serde ls (insert_locator id k m)
unfolding insert_locator
insert-AllLocate serde ls id k [] l a = (l, tt)
insert-AllLocate serde ls id k ((j, h) ∷ m) l a = elim (Bool-cases (eqb j id)) [
  | inl same ↦ rw same (l, a.1)
  | inr ne ↦ rw ne (a.0, insert-AllLocate serde ls id k m l a.1)
]

-- Whether a key is in the map.
pub has_key : Text → List (Text × ToolBodyLocator) → Bool
has_key id [] = false
has_key id ((j, k) ∷ m) = eqb j id || has_key id m

insert-has_key :
    (id : Text) (k : ToolBodyLocator) (m : List (Text × ToolBodyLocator))
    → has_key id (insert_locator id k m) ≡ true
unfolding has_key insert_locator
insert-has_key id k [] = rw (eqb_refl id) refl
insert-has_key id k ((j, h) ∷ m) = ground (arith, eqb_refl id, insert-has_key id k m)

insert_keeps_key :
    (id o : Text) (k : ToolBodyLocator) (m : List (Text × ToolBodyLocator))
    → has_key o m ≡ true
    → has_key o (insert_locator id k m) ≡ true
unfolding has_key insert_locator
insert_keeps_key id o k [] h = cc
insert_keeps_key id o k ((j, g) ∷ m) h = ground (arith, eqb_iff j id, insert_keeps_key id o k m)

module _ (serde : Serde) (pre rest : List Text) (line : Text) (s : Scan) where
  abbrev whole : List Text
  whole = pre ++ line ∷ rest

  -- The cursor stands behind the lines before.
  abbrev AtCursor : Type 0
  AtCursor = (s.byte_offset ≡ length (unlines pre)) × (s.line_index ≡ length pre)

  slice : take (length line) (drop (length (unlines pre)) (unlines whole)) ≡ line
  unfolding unlines
  slice =
      rw (unlines-append pre (line ∷ rest), drop-length (unlines pre) (unlines (line ∷ rest)))
        (take-length line (10 ∷ unlines rest))

  locator-Locates :
      (ev : TailEvent) (id : Text)
      → AtCursor
      → parse_event serde line ≡ some ev
      → result_id ev.kind ev.tool_use_id ≡ some id
      → Locates serde whole id (locator serde line s ev id)
  unfolding locator result_of
  locator-Locates ev id c p r = record {
    line = line;
    indexed = rw c.1 (get_elem?-length pre rest line);
    bytes = rw c.0 slice;
    keyed = refl;
    answers = rw p r;
  }

abbrev pub HasKeys : Serde → List Text → List (Text × ToolBodyLocator) → Type 0
HasKeys serde pre m = All (λ l. (id : Text) → result_of serde l ≡ some id → has_key id m ≡ true) pre

-- The scan after some lines of a transcript.
record Tracks (serde : Serde) (ls pre : List Text) (s : Scan) : Type 0 where
  located : AllLocate serde ls s.by_tool_id
  keys : HasKeys serde pre s.by_tool_id
  offset : s.byte_offset ≡ length (unlines pre)
  index : s.line_index ≡ length pre

keys-insert :
    (serde : Serde) (pre : List Text) (id : Text) (k : ToolBodyLocator)
    (m : List (Text × ToolBodyLocator))
    → HasKeys serde pre m
    → HasKeys serde pre (insert_locator id k m)
keys-insert serde [] id k m h = tt
keys-insert serde (l ∷ pre) id k m h =
    ((λ o r. insert_keeps_key id o k m (h.0 o r)), keys-insert serde pre id k m h.1)

keys-append :
    (serde : Serde) (pre : List Text) (l : Text) (m : List (Text × ToolBodyLocator))
    → HasKeys serde pre m
    → ((id : Text) → result_of serde l ≡ some id → has_key id m ≡ true)
    → HasKeys serde (pre ++ l ∷ []) m
keys-append serde [] l m h k = (k, tt)
keys-append serde (p ∷ pre) l m h k = (h.0, keys-append serde pre l m h.1 k)

module _ (serde : Serde) (line : Text) where
  no_event : parse_event serde line ≡ none → (id : Text) → ¬ (result_of serde line ≡ some id)
  unfolding result_of
  no_event p id r = ground arith

  no_result :
      (ev : TailEvent)
      → parse_event serde line ≡ some ev
      → result_id ev.kind ev.tool_use_id ≡ none
      → (id : Text) → ¬ (result_of serde line ≡ some id)
  unfolding result_of
  no_result ev p r id q = ground arith

  same_key :
      (ev : TailEvent) (id o : Text) (k : ToolBodyLocator) (m : List (Text × ToolBodyLocator))
      → parse_event serde line ≡ some ev
      → result_id ev.kind ev.tool_use_id ≡ some id
      → result_of serde line ≡ some o
      → has_key o (insert_locator id k m) ≡ true
  unfolding result_of
  same_key ev id o k m p r q = let e : id ≡ o = ground arith in rw (← e) (insert-has_key id k m)

module _ (serde : Serde) (pre rest : List Text) (line : Text) (s : Scan)
    (t : Tracks serde (pre ++ line ∷ rest) pre s) where
  -- What the loop has put into the map for the line.
  abbrev Mapped : List (Text × ToolBodyLocator) → Type 0
  Mapped m = AllLocate serde (pre ++ line ∷ rest) m × HasKeys serde (pre ++ line ∷ []) m

  unmapped : ((id : Text) → ¬ (result_of serde line ≡ some id)) → Mapped s.by_tool_id
  unmapped absent =
      (t.located, keys-append serde pre line s.by_tool_id t.keys (λ id r. absurd (absent id r)))

  found-Mapped :
      (ev : TailEvent) (o : Option Text)
      → parse_event serde line ≡ some ev
      → result_id ev.kind ev.tool_use_id ≡ o
      → Mapped (insert_found o (locator serde line s ev) s.by_tool_id)
  unfolding insert_found
  found-Mapped ev none p r = unmapped (no_result serde line ev p r)
  found-Mapped ev (some id) p r = (
    insert-AllLocate serde (pre ++ line ∷ rest) id (locator serde line s ev id) s.by_tool_id
        (locator-Locates serde pre rest line s ev id (t.offset, t.index) p r) t.located,
    keys-append serde pre line (insert_locator id (locator serde line s ev id) s.by_tool_id)
        (keys-insert serde pre id (locator serde line s ev id) s.by_tool_id t.keys)
        (λ o q. same_key serde line ev id o (locator serde line s ev id) s.by_tool_id p r q),
  )

  noted-Mapped :
      (o : Option TailEvent) → parse_event serde line ≡ o → Mapped (noted serde line o s).by_tool_id
  unfolding noted note_event
  noted-Mapped none p = unmapped (no_event serde line p)
  noted-Mapped (some ev) p = found-Mapped ev (result_id ev.kind ev.tool_use_id) p refl

  noted_cursor :
      (o : Option TailEvent)
      → ((noted serde line o s).byte_offset ≡ s.byte_offset)
        × ((noted serde line o s).line_index ≡ s.line_index)
  unfolding noted note_event
  noted_cursor none = (refl, refl)
  noted_cursor (some ev) = (refl, refl)

  scan_line-Tracks : Tracks serde (pre ++ line ∷ rest) (pre ++ line ∷ []) (scan_line serde line s)
  unfolding scan_line unlines
  scan_line-Tracks =
      let m = noted-Mapped (parse_event serde line) refl in
      let c = noted_cursor (parse_event serde line) in
      record {
        located = m.0;
        keys = m.1;
        offset = omega (
          arith,
          ap length (unlines-append pre (line ∷ [])),
          c.0,
          t.offset,
          length-append {0} (unlines pre) (unlines (line ∷ [])),
          length-append {0} line (10 ∷ []),
        );
        index = omega (arith, c.1, t.index, length-append {0} pre (line ∷ []));
      }

scan_lines-Tracks :
    (serde : Serde) (ls pre rest : List Text) (s : Scan)
    → ls ≡ pre ++ rest
    → Tracks serde ls pre s
    → Tracks serde ls ls (scan_lines serde rest s)
unfolding scan_lines
scan_lines-Tracks serde ls pre [] s e t =
    let same : pre ≡ ls = sym (e ∙ append-nil pre) in subst (λ p. Tracks serde ls p s) same t
scan_lines-Tracks serde ls pre (line ∷ rest) s e t =
    let t' : Tracks serde (pre ++ line ∷ rest) pre s = subst (λ l. Tracks serde l pre s) e t in
    scan_lines-Tracks serde ls (pre ++ line ∷ []) rest (scan_line serde line s)
      (e ∙ sym (append_assoc pre (line ∷ []) rest))
      (subst (λ l. Tracks serde l (pre ++ line ∷ []) (scan_line serde line s)) (sym e)
        (scan_line-Tracks serde pre rest line s t'))

start-Tracks : (serde : Serde) (ls : List Text) → Tracks serde ls [] at_start
unfolding unlines
start-Tracks serde ls = record { located = tt; keys = tt; offset = refl; index = refl }

-- Of a transcript whose lines are UTF-8 and end in a newline with no carriage return before it, the
-- index has a locator for each call that a line is the result of, and every locator names a line by
-- its position, gives the place of its bytes in the file, and has the id of the call that the line
-- answers.
pub index_locates :
    (serde : Serde) (ls : List Text) (limit : ℕ)
    → All IsLine ls
    → All (λ l. valid_utf8 l ≡ true) ls
    → AllLocate serde ls (build_tail_index serde (some (unlines ls)) limit).by_tool_id
      × HasKeys serde ls (build_tail_index serde (some (unlines ls)) limit).by_tool_id
unfolding build_tail_index
index_locates serde ls limit h v =
    let t = scan_lines-Tracks serde ls [] ls at_start refl (start-Tracks serde ls) in
    rw (read_lines-unlines ls h v) (t.located, t.keys)
