-- ===== src/Rebuild/Orientation/Tests.antt =====
-- Runs of the orientation of src/rebuild.rs, with a request that has room for a `cache_control`.
use ostk_cache.Prelude.{◌≡◌, ◌≢◌, refl, arith, true, false, some, String, codes}
use text.Mathlib.TextEquality.{eq_iff}
use ostk_cache.Json.{Value, str, array, object, nil, cons, end, entry, get, insert}
use ostk_cache.Rebuild.Orientation.{
  CacheControl, append_kernel_orientation_to_system, append_block, new_block, set_index,
}
use ostk_cache.Rebuild.Orientation.Once.{append_once}

abbrev api : CacheControl
api = record { count_fields = λ v. 0; limit = 4 }

abbrev marker : Value
marker = object (entry "cache_control" (object (entry "ttl" (str (codes "1h")) end)) end)

abbrev request : Value
request = object (entry "messages" (array (cons marker nil)) end)

abbrev oriented : Value
oriented = object (
    entry "messages" (array (cons marker nil))
      (entry "system" (array (cons (new_block api request "1h") nil)) end))

appends : append_kernel_orientation_to_system api request "1h" ≡ some (oriented, true)
unfolding append_kernel_orientation_to_system append_block set_index get insert
appends = refl

system≢messages : ◌≢◌ {A = String} "system" "messages"
system≢messages = ground (arith, eq_iff "system" "messages")

append_once_example : append_kernel_orientation_to_system api oriented "5m" ≡ some (oriented, false)
append_once_example = append_once api request oriented true "1h" "5m" appends
