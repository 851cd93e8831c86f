-- ===== src/CycleDigest/Tests.antt =====
-- Runs of the readers of src/cycle_digest.rs on small texts.
use ostk_cache.Prelude.{
  ◌≡◌, refl, false, List, [], ◌∷◌, ◌++◌, Option, none, some, Text, codes, eqb, if◌then◌else◌, ◌>>=◌,
  str_contains, starts_with,
}
use ostk_cache.Prelude.Literals.{utf8}
use ostk_cache.Prelude.Utf8.{trim, valid_utf8}
use ostk_cache.Json.{Value, str, object, end, entry}
use ostk_cache.TranscriptTail.Written.{unlines}
use ostk_cache.CycleDigest.{
  CycleDigest, Serde, fence_open, fence_close, digest_of, parse_digest, assistant_text,
  extract_assistant_text_from_sse, write_digest, read_recent_for_session, read_recent_peers,
  render_recent_section, render_peer_section,
}
use ostk_cache.CycleDigest.Fence.{parse-last_fence}
use ostk_cache.CycleDigest.Rows.{Writable, write-Seen}

abbrev digest : Text → Text → CycleDigest
digest session narrative = record {
  ts = codes "now";
  session = session;
  intent = none;
  outcome = some (codes "done");
  artifacts = codes "a.rs" ∷ [];
  narrative = some narrative;
}

abbrev mine : CycleDigest
mine = digest (codes "s1") (codes "fixed it")

abbrev theirs : CycleDigest
theirs = digest (codes "s2") (codes "broke it")

abbrev delta : Value
delta = object (
    entry "delta"
      (object (entry "text" (str (codes "hello")) (entry "type" (str (codes "text_delta")) end)))
      end)

abbrev intended : Value
intended = object (entry "intent" (str (codes "ship")) end)

-- A parser of four texts.
abbrev small_from_str : Text → Option Value
small_from_str s =
    if eqb s (codes "D") then some delta else if eqb s (codes "J") then some intended else none

abbrev small_row : Text → Option CycleDigest
small_row s =
    if eqb s (codes "M") then some mine else if eqb s (codes "T") then some theirs else none

abbrev small_print : CycleDigest → Option Text
small_print d = some (if eqb d.session (codes "s1") then codes "M" else codes "T")

abbrev small : Serde
small = record { from_str = small_from_str; row = small_row; to_string = small_print }

stream_text :
    extract_assistant_text_from_sse small (
      codes
        "event: content_block_delta\ndata: D\n\nevent: ping\ndata: D\n\nevent: content_block_delta\r\ndata: D\n")
    ≡ codes "hellohello"
unfolding extract_assistant_text_from_sse starts_with
stream_text = refl

abbrev reply : Text
reply = codes "<turn-digest>old</turn-digest> so <turn-digest> J </turn-digest>."

reply_text :
    assistant_text small reply
    ≡ codes "<turn-digest>old</turn-digest> so "
      ++ (fence_open ++ (codes " J " ++ (fence_close ++ codes ".")))
unfolding assistant_text starts_with
reply_text = refl

closed_once : str_contains (codes " J ") fence_close ≡ false
unfolding str_contains starts_with
closed_once = refl

opened_once : str_contains (codes " J " ++ (fence_close ++ codes ".")) fence_open ≡ false
unfolding str_contains starts_with
opened_once = refl

sessions_differ : eqb (codes "s1") (codes "s2") ≡ false
unfolding eqb
sessions_differ = refl

parse-last_fence_example :
    parse_digest small (codes "now") reply
    ≡ (small.from_str (trim (codes " J ")) >>= λ parsed. some (digest_of (codes "now") parsed))
parse-last_fence_example =
    parse-last_fence small (codes "now") reply (codes "<turn-digest>old</turn-digest> so ")
      (codes " J ") (codes ".") reply_text closed_once opened_once

abbrev rows : List Text
rows = codes "M" ∷ codes "T" ∷ []

mine-Writable : Writable small rows mine
unfolding valid_utf8 eqb
mine-Writable = record {
  line = codes "M";
  printed = refl;
  parsed = refl;
  ends = (refl, refl);
  valid = refl;
  all_end = ((refl, refl), ((refl, refl), tt));
  all_valid = (refl, (refl, tt));
}

abbrev file : Option Text
file = some (unlines rows)

abbrev written_file : Option Text
written_file = some (write_digest small file mine)

write-Seen_example :
    (read_recent_for_session small written_file (codes "s1") 2
      ≡ read_recent_for_session small file (codes "s1") 1 ++ mine ∷ [])
    × (read_recent_peers small written_file (codes "s2") 2
        ≡ read_recent_peers small file (codes "s2") 1 ++ mine ∷ [])
    × (read_recent_peers small written_file (codes "s1") 1
        ≡ read_recent_peers small file (codes "s1") 1)
    × (read_recent_for_session small written_file (codes "s2") 1
        ≡ read_recent_for_session small file (codes "s2") 1)
write-Seen_example = write-Seen small rows mine mine-Writable 1 (codes "s2") sessions_differ

recent_section :
    render_recent_section (mine ∷ theirs ∷ [])
    ≡ some (
        codes
          "## Recent assistant turns (digest)\n\n- **[t-1]** [done] fixed it [a.rs]\n- **[t-0]** [done] broke it [a.rs]\n\n")
unfolding render_recent_section
recent_section = refl

peer_section :
    render_peer_section (theirs ∷ [])
    ≡ some (
        utf8
          "## Peer activity (other seats, digest — NOT your turns)\n\n- **[peer:s2]** [done] broke it [a.rs]\n\n")
unfolding render_peer_section utf8
peer_section = refl
