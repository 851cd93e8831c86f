-- ===== src/TranscriptTail/Index/Latest.antt =====
-- The events of the index, against those of `read_tail_events`.
use ostk_cache.Prelude.{
  ℕ, zero, suc, ◌-◌, ◌≡◌, refl, ap, sym, ◌∙◌, List, [], ◌∷◌, ◌++◌, append_assoc, append-nil, Option,
  none, some, Text, arith, length, drop, All,
}
use ostk_cache.TranscriptTail.Events.{
  TailEvent, Serde, parse_event, read_lines, filter_map, read_tail_events,
}
use ostk_cache.TranscriptTail.Index.{
  Scan, at_start, noted, note_event, scan_line, scan_lines, build_tail_index,
}

module _ (serde : Serde) where
  parsed_none :
      (l : Text) (ls : List Text)
      → parse_event serde l ≡ none
      → filter_map (parse_event serde) (l ∷ ls) ≡ filter_map (parse_event serde) ls
  unfolding filter_map
  parsed_none l ls e = ground arith

  parsed_some :
      (l : Text) (ls : List Text) (ev : TailEvent)
      → parse_event serde l ≡ some ev
      → filter_map (parse_event serde) (l ∷ ls) ≡ ev ∷ filter_map (parse_event serde) ls
  unfolding filter_map
  parsed_some l ls ev e = ground arith

  noted_events :
      (line : Text) (ls : List Text) (o : Option TailEvent) (s : Scan)
      → parse_event serde line ≡ o
      → (noted serde line o s).events ++ filter_map (parse_event serde) ls
        ≡ s.events ++ filter_map (parse_event serde) (line ∷ ls)
  unfolding noted note_event
  noted_events line ls none s e = rw (parsed_none line ls e) refl
  noted_events line ls (some ev) s e =
      rw (parsed_some line ls ev e)
        (append_assoc s.events (ev ∷ []) (filter_map (parse_event serde) ls))

  parsed-nil : filter_map (parse_event serde) [] ≡ []
  unfolding filter_map
  parsed-nil = refl

  scan_events :
      (ls : List Text) (s : Scan)
      → (scan_lines serde ls s).events ≡ s.events ++ filter_map (parse_event serde) ls
  unfolding scan_lines scan_line
  scan_events [] s = rw parsed-nil (sym (append-nil s.events))
  scan_events (l ∷ ls) s =
      scan_events ls (scan_line serde l s) ∙ noted_events l ls (parse_event serde l) s refl

  -- Every line is an event.
  abbrev pub AllParse : List Text → Type 0
  AllParse ls = All (λ l. (ev : TailEvent) × (parse_event serde l ≡ some ev)) ls

  length-parsed :
      (ls : List Text) → AllParse ls → length (filter_map (parse_event serde) ls) ≡ length ls
  length-parsed [] h = ap length parsed-nil
  length-parsed (l ∷ ls) h = rw (parsed_some l ls h.0.0 h.0.1) (ap suc (length-parsed ls h.1))

  drop-parsed :
      (k : ℕ) (ls : List Text)
      → AllParse ls
      → drop k (filter_map (parse_event serde) ls) ≡ filter_map (parse_event serde) (drop k ls)
  drop-parsed zero ls h = refl
  drop-parsed (suc k) [] h = rw parsed-nil refl
  drop-parsed (suc k) (l ∷ ls) h = rw (parsed_some l ls h.0.0 h.0.1) (drop-parsed k ls h.1)

  -- Where every line of the transcript is an event, the index has the events that reading the tail
  -- gives.
  pub index_events :
      (file : Text) (limit : ℕ)
      → AllParse (read_lines file)
      → (build_tail_index serde (some file) limit).events ≡ read_tail_events serde (some file) limit
  unfolding build_tail_index read_tail_events
  index_events file limit h =
      let ls = read_lines file in
      rw (scan_events (read_lines file) at_start, length-parsed (read_lines file) h)
        (drop-parsed (length (read_lines file) - limit) (read_lines file) h)
