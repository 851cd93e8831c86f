-- ===== src/Rebuild/Envelope/Tests.antt =====
-- Runs of the envelope search of src/rebuild.rs, after its own tests.
use ostk_cache.Prelude.Lines.{lines, split_inclusive, strip_eol}
use ostk_cache.Prelude.{◌≡◌, refl, ◌++◌, some, Text, codes, starts_with}
use ostk_cache.Rebuild.Envelope.{is_quadruplet, joined_lines, scan_lines, find_envelope_quadruplet}
use ostk_cache.Rebuild.Envelope.Last.{last_quadruplet, find_envelope-last}

abbrev envelope : Text
envelope = codes "[procs] 1\n[loadavg] 2\n[meminfo] 3\n[ctx] 4"

abbrev text : Text
text = codes "[procs] 0\nnoise\n" ++ (envelope ++ codes "\nafter")

last_found : find_envelope_quadruplet text ≡ some envelope
unfolding find_envelope_quadruplet scan_lines is_quadruplet joined_lines lines split_inclusive
    strip_eol starts_with
last_found = refl

find_envelope-last_example : find_envelope_quadruplet text ≡ last_quadruplet (lines text)
find_envelope-last_example = find_envelope-last text
