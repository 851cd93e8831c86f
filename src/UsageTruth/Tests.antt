-- ===== src/UsageTruth/Tests.antt =====
-- Runs of src/usage_truth.rs, with whole numbers in place of `f64` and a parser and a printer that
-- know one event.
use ostk_cache.Prelude.{
  none, ℕ, ◌/◌, ◌≡◌, refl, false, List, [], ◌∷◌, ◌++◌, some, Text, codes, ◌==◌, starts_with,
}
use ostk_cache.Json.{Value, num, object, entry, end, get_u64}
use ostk_cache.Prelude.Utf8.{valid_utf8, trim_end}
use ostk_cache.Prelude.Lines.{split_inclusive, strip_prefix, strip_eol, lines}
use ostk_cache.Size.{Printer}
use ostk_cache.UsageTruth.{
  augment_meminfo_body, join_lines, augment_line, Estimate, Serde, new, find_double_newline, past,
  contains_subslice, usage_key, total_in, bump, bump_usage, rewrite_event, rewrite_lines,
  rewrite_line, ends_in_newline, emit, transform, flush,
}
use ostk_cache.UsageTruth.Bump.{input_sum}
use ostk_cache.UsageTruth.Stream.{joined, forwarded, Rewritten, forwarded-Rewritten}

abbrev whole : Estimate
whole = record {
  Float = ℕ;
  of_u64 = λ n. n;
  no_scale = λ n. n == 0;
  rounded_ratio = λ a b. a / b;
  four = 4;
}

abbrev usage : Value
usage = object (entry "input_tokens" (num 3) (entry "cache_read_input_tokens" (num 100) end))

abbrev serde : Serde
serde = record {
  from_str = λ t. some (object (entry "usage" usage end));
  to_string = λ v. codes "{}";
}

abbrev chunks : List Text
chunks = codes "data: " ∷ (usage_key ++ (10 ∷ [])) ∷ (10 ∷ codes "rest") ∷ []

abbrev pings : List Text
pings = (codes "event: ping" ++ (10 ∷ [])) ∷ (10 ∷ codes "data") ∷ []

rewrites : forwarded serde (new 1000) chunks ≡ codes "data: {}" ++ (10 ∷ 10 ∷ codes "rest")
unfolding transform flush emit find_double_newline past rewrite_event rewrite_lines rewrite_line
    split_inclusive strip_prefix ends_in_newline contains_subslice starts_with valid_utf8 trim_end
    bump_usage bump total_in get_u64
rewrites = refl

abbrev printer : Printer
printer = record { to_string = λ v. none; one_decimal = λ a b. codes "1.0" }

-- The newline at the end goes, even where no line is a `[meminfo]`.
end_dropped :
    augment_meminfo_body printer (codes "[procs]\n[meminfo] 3\n") 1048576
    ≡ codes "[procs]\n[meminfo] 3 body:1.0MB/32MB"
unfolding augment_meminfo_body join_lines augment_line lines split_inclusive strip_eol starts_with
end_dropped = refl

no_usage_key : contains_subslice (joined pings) usage_key ≡ false
unfolding contains_subslice starts_with
no_usage_key = refl

usage_input : get_u64 "input_tokens" usage ≡ some 3
unfolding get_u64
usage_input = refl

usage_sum : input_sum usage ≡ 103
unfolding get_u64
usage_sum = refl

forwarded-Rewritten_example :
    Rewritten serde 1000 (joined chunks) (forwarded serde (new 1000) chunks)
forwarded-Rewritten_example = forwarded-Rewritten serde 1000 chunks
