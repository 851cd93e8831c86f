-- ===== src/Session/Tests.antt =====
-- Runs of src/lib.rs on small inputs.
use ostk_cache.Prelude.{
  ◌≡◌, refl, Bool, true, false, List, [], ◌∷◌, ◌++◌, none, some, Text, codes, starts_with,
}
use ostk_cache.Session.{render_partition}
use ostk_cache.Session.Partition.{IsPartition, render-IsPartition}
use ostk_cache.Session.Pages.{States}
use ostk_cache.Session.Pages.Refined.{Op, storing, loading, evicting, releasing, restoring}
use ostk_cache.Session.Origin.{normalize_git_url}

abbrev turn_one : Text
turn_one = codes "rules " ++ (0xc3 ∷ 0xa9 ∷ codes " one")

abbrev turn_two : Text
turn_two = codes "rules " ++ (0xc3 ∷ 0xa8 ∷ codes " two")

-- The two accented letters begin with one byte, which the firmware does not take.
parted :
    render_partition (turn_one ∷ turn_two ∷ []) ≡ some (codes "rules ", 0xc3 ∷ 0xa8 ∷ codes " two")
unfolding render_partition
parted = refl

one_turn : render_partition (codes "abc\ndefghijklm" ∷ []) ≡ some (codes "abc", codes "defghijklm")
unfolding render_partition
one_turn = refl

-- A threshold inside of a character panics.
one_turn_panics : render_partition ((b'a' ∷ b'b' ∷ 0xc3 ∷ 0xa9 ∷ []) ∷ []) ≡ none
unfolding render_partition
one_turn_panics = refl

render-IsPartition_example :
    (parts : Text × Text) × (render_partition (turn_one ∷ turn_two ∷ []) ≡ some parts)
    × IsPartition turn_one turn_two [] parts
render-IsPartition_example = render-IsPartition turn_one turn_two []

abbrev two_states : States
two_states = record { PageState = Bool; hot = true; warm = false; same_state = λ a b. true }

abbrev ops : List Op
ops =
    storing (codes "t1") (codes "n") (codes "12345678") (codes "w")
    ∷ releasing (codes "n") (codes "w")
    ∷ loading (codes "t2") (codes "n") (codes "w")
    ∷ evicting (codes "n") (codes "w")
    ∷ restoring (codes "n") (codes "w")
    ∷ []

origin : normalize_git_url (codes "git@h.io:a/b.git\n") ≡ codes "https://h.io/a/b"
unfolding normalize_git_url starts_with
origin = refl
