-- ===== src/Capture/Tests.antt =====
-- Runs of the capture's parts on small inputs.
use ostk_cache.Prelude.{
  Text, all, not, ℕ, ◌*◌, ◌≤◌, ◌≡◌, refl, true, false, List, [], ◌∷◌, none, some, codes, eqb,
  length, any, retain, arith,
}
use ostk_cache.Size.{decimal}
use ostk_cache.ProviderPolicy.{has_byte, eq_ignore_ascii_case, to_ascii_lowercase}
use ostk_cache.Capture.Writer.{
  CaptureMetadata, CaptureMsg, start, outbound, finish, Writer, done, Io, exists, rotate,
  handle_all,
}
use ostk_cache.Capture.Writer.Absent.{starts_other, is_of, dropped, handle_all-absent}
use ostk_cache.Capture.Dedupe.Recent.{Call}
use ostk_cache.Capture.Rotation.{
  EntryDir, Root, same_dir, name_le, rotate_capture_dir, record_and_maybe_rotate,
}
use ostk_cache.Capture.Rotation.Count.{count, same_dir_iff, Distinct, rotate_count}
use ostk_cache.Capture.Rotation.Newest.{Older, rotate_newest}
use ostk_cache.Capture.Rotation.Cap.{WithinCap, starts, starts-WithinCap}
use ostk_cache.Capture.SelfLoop.{http}
use ostk_cache.Capture.SelfLoop.Refused.{plain, url_of, localhost, Answers, check_local_url}

abbrev second : ℕ
second = 1000000000

-- The same request again within the window, and after it.
abbrev calls : List Call
calls =
    (1 * second, codes "s", codes "h")
    ∷ (2 * second, codes "s", codes "h")
    ∷ (70 * second, codes "s", codes "h")
    ∷ []

abbrev first : EntryDir
first = record { shard = some (codes "17"); name = codes "170" }

abbrev second_dir : EntryDir
second_dir = record { shard = some (codes "18"); name = codes "181" }

abbrev root : Root
root = record { entries = second_dir ∷ first ∷ []; shards = codes "17" ∷ codes "18" ∷ [] }

-- The older entry goes, with its shard.
rotated :
    rotate_capture_dir (λ _. true) 1 root
    ≡ (1, record { entries = second_dir ∷ []; shards = codes "18" ∷ [] })
unfolding rotate_capture_dir eqb any retain name_le
rotated = refl

dirs-Distinct : Distinct (second_dir ∷ first ∷ [])
unfolding count
dirs-Distinct e = ground (arith, same_dir_iff e second_dir, same_dir_iff e first)

rotate_count_example :
    (rotate_capture_dir (λ _. true) 1 root).0
    ≡ length (rotate_capture_dir (λ _. true) 1 root).1.entries
rotate_count_example = rotate_count (λ _. true) 1 root (omega arith) dirs-Distinct

gone : count first (rotate_capture_dir (λ _. true) 1 root).1.entries ≡ 0
unfolding count same_dir eqb
gone = rw rotated refl

kept : 1 ≤ count second_dir (rotate_capture_dir (λ _. true) 1 root).1.entries
unfolding count same_dir eqb
kept = rw rotated (omega arith)

was_there : 1 ≤ count first root.entries
unfolding count same_dir eqb
was_there = omega arith

rotate_newest_example : Older first second_dir
rotate_newest_example = rotate_newest (λ _. true) 1 root first second_dir was_there gone kept refl

abbrev empty_root : Root
empty_root = record { entries = []; shards = [] }

starts-WithinCap_example : WithinCap 1 (starts 1 (second_dir ∷ first ∷ []) (none, empty_root))
starts-WithinCap_example =
    starts-WithinCap 1 second_dir (first ∷ []) empty_root (omega arith) dirs-Distinct

bare_localhost : has_byte b'/' (codes "LocalHost") ≡ false
unfolding has_byte
bare_localhost = refl

same_letters : eq_ignore_ascii_case (codes "localhost") (codes "LocalHost") ≡ true
unfolding eq_ignore_ascii_case to_ascii_lowercase eqb
same_letters = refl

check_local_url_example : Answers (url_of http (codes "LocalHost") 8080 (codes "/v1/")) 8080 8080
check_local_url_example =
    check_local_url plain (codes "localhost") (codes "LocalHost") (codes "/v1/") 8080 8080 localhost
      same_letters bare_localhost (omega arith) refl

-- SHA-256 as a text of the length.
abbrev short_hash : Text → Text
short_hash body = decimal (length body)

abbrev fine : Io
fine = record { mkdir = true; body = done; metadata = true; removable = λ _. true }

abbrev meta : CaptureMetadata
meta = record {
  id = codes "b";
  ts = codes "t";
  session = codes "s";
  method = codes "POST";
  path = codes "/v1/messages";
  status = none;
  is_sse = none;
  elapsed_ms = none;
  request_headers = [];
  response_headers = [];
  request_in = record { file = codes "request-in.body"; bytes = 1; sha256 = codes "1" };
  request_out = none;
  response = none;
}

abbrev nothing_captured : Writer
nothing_captured = record { dirs = []; shards = []; estimate = none; rotated_inflight_drops = 0 }

-- The first capture is rotated away when the second starts.
abbrev starting : List (Io × CaptureMsg)
starting = (fine, start first 1 (codes "x") meta) ∷ (fine, start second_dir 1 (codes "x") meta) ∷ []

abbrev started : Writer
started = handle_all short_hash starting nothing_captured

abbrev messages : List (Io × CaptureMsg)
messages =
    (fine, outbound first (codes "y"))
    ∷ (fine, outbound second_dir (codes "y"))
    ∷ (fine, finish first 200 false [] (codes "z") 7)
    ∷ []

first_gone : exists first started.dirs ≡ false
unfolding handle_all rotate record_and_maybe_rotate rotate_capture_dir eqb any retain name_le
first_gone = refl

second_there : exists second_dir started.dirs ≡ true
unfolding handle_all rotate record_and_maybe_rotate rotate_capture_dir eqb any retain name_le
second_there = refl

-- Both messages of the capture that is gone are counted.
two_dropped : (handle_all short_hash messages started).rotated_inflight_drops ≡ 2
unfolding handle_all rotate record_and_maybe_rotate rotate_capture_dir eqb any retain name_le
two_dropped = refl

messages_start_other : all (λ m. starts_other first m.1) messages ≡ true
unfolding all
messages_start_other = refl

handle_all-absent_example :
    (exists first (handle_all short_hash messages started).dirs ≡ false)
    × (handle_all short_hash messages started
        ≡ dropped
            (length (retain (is_of first) messages))
            (handle_all short_hash (retain (λ m. not (is_of first m)) messages) started))
handle_all-absent_example =
    handle_all-absent short_hash first messages started messages_start_other first_gone
