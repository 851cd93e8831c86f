-- ===== src/Usage/LineEnds.antt =====
-- The streams of crates/ostk-cache-core/src/usage.rs with either line end.
use ostk_cache.Prelude.Lines.{lines, split_inclusive, strip_eol}
use ostk_cache.Prelude.Utf8.{valid_utf8}
use ostk_cache.Prelude.LineEnds.{to_crlf, clean, clean_lines_lem, valid_utf8-crlf}
use ostk_cache.Prelude.{
  ◌≡◌, refl, sym, ap, ◌∙◌, true, List, [], ◌∷◌, map, Option, none, some, Text, or_else,
  if◌then◌else◌,
}
use ostk_cache.UsageTruth.{Serde}
use ostk_cache.Usage.{
  ProviderUsage, UsageDialect, anthropic, open_ai, Scan, sse_line, sse_lines, openai_line,
  latest_usage, nothing_yet, parse_anthropic_usage_from_sse, parse_openai_usage_from_sse,
  parse_usage,
}

module _ (serde : Serde) where
  -- The two loops, on lines whose ends are gone.
  clean_scan : Scan → List Text → Scan
  clean_scan scan [] = scan
  clean_scan scan (l ∷ ls) = clean_scan (sse_line serde scan l) ls

  clean_latest : Option ProviderUsage → List Text → Option ProviderUsage
  clean_latest latest [] = latest
  clean_latest latest (l ∷ ls) = clean_latest (or_else (openai_line serde l) latest) ls

  sse_lines-clean :
      (scan : Scan) (ls : List Text)
      → sse_lines serde scan (map strip_eol ls) ≡ clean_scan scan (map clean ls)
  unfolding sse_lines clean_scan
  sse_lines-clean scan [] = refl
  sse_lines-clean scan (l ∷ ls) = sse_lines-clean (sse_line serde scan (clean l)) ls

  latest_usage-clean :
      (latest : Option ProviderUsage) (ls : List Text)
      → latest_usage serde latest (map strip_eol ls) ≡ clean_latest latest (map clean ls)
  unfolding latest_usage clean_latest
  latest_usage-clean latest [] = refl
  latest_usage-clean latest (l ∷ ls) =
      latest_usage-clean (or_else (openai_line serde (clean l)) latest) ls

  sse_lines-crlf :
      (scan : Scan) (s : Text)
      → sse_lines serde scan (lines (to_crlf s)) ≡ sse_lines serde scan (lines s)
  unfolding lines
  sse_lines-crlf scan s =
      sse_lines-clean scan (split_inclusive (to_crlf s))
      ∙ ap (clean_scan scan) (clean_lines_lem s)
      ∙ sym (sse_lines-clean scan (split_inclusive s))

  latest_usage-crlf :
      (latest : Option ProviderUsage) (s : Text)
      → latest_usage serde latest (lines (to_crlf s)) ≡ latest_usage serde latest (lines s)
  unfolding lines
  latest_usage-crlf latest s =
      latest_usage-clean latest (split_inclusive (to_crlf s))
      ∙ ap (clean_latest latest) (clean_lines_lem s)
      ∙ sym (latest_usage-clean latest (split_inclusive s))

  -- A stream of either dialect is parsed the same when each of its `\n` is `\r\n` instead.
  pub parse_usage-crlf :
      (d : UsageDialect) (body : Text)
      → parse_usage serde d true (to_crlf body) ≡ parse_usage serde d true body
  unfolding parse_usage parse_anthropic_usage_from_sse parse_openai_usage_from_sse
  parse_usage-crlf anthropic body =
      ap
        (λ scan.
          if valid_utf8 (to_crlf body)
          then (if scan.found
              then some (record {
                input_tokens = scan.input_tokens;
                cache_read_tokens = scan.cache_read;
                cache_create_tokens = scan.cache_create;
              })
              else none)
          else none)
        (sse_lines-crlf nothing_yet body)
      ∙ rw (valid_utf8-crlf body) refl
  parse_usage-crlf open_ai body =
      ap (λ u. if valid_utf8 (to_crlf body) then u else none) (latest_usage-crlf none body)
      ∙ rw (valid_utf8-crlf body) refl
