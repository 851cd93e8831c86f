-- ===== src/Rebuild/Sections.antt =====
-- The section sizes of a request body, in src/rebuild.rs.
pub mod Laws
use ostk_cache.Prelude.{
  ℕ, zero, suc, ◌+◌, ◌<◌, Bool, true, false, List, [], ◌∷◌, Option, none, some, String, ltb,
  if◌then◌else◌,
}
use ostk_cache.Json.{Value, get, get_array}
use ostk_cache.Size.{Printer, json_size}

pub record SectionSizes : Type 0 where
  pub system : ℕ
  pub tools : ℕ
  pub synthetic : ℕ
  pub in_flight : ℕ

unfoldable pub total : SectionSizes → ℕ
total s = s.system + s.tools + s.synthetic + s.in_flight

-- A later section takes the lead only where it is larger.
unfoldable pub larger : String × ℕ → String × ℕ → String × ℕ
larger lead next = if ltb lead.1 next.1 then next else lead

unfoldable pub dominant : SectionSizes → String × ℕ
unfolding larger
dominant s =
    larger (larger (larger ("system", s.system) ("tools", s.tools)) ("synthetic", s.synthetic))
      ("in_flight", s.in_flight)

module _ (out : Printer) where
  section : String → Value → ℕ
  section k value = elim (get k value) [ none ↦ 0 | some v ↦ json_size out v ]

  unfoldable pub sizes : List Value → ℕ
  sizes [] = 0
  sizes (m ∷ ms) = json_size out m + sizes ms

  -- The sizes of the synthesized first message, where there is one, and of the others.
  unfoldable pub message_sizes : Bool → Option (List Value) → ℕ × ℕ
  unfolding sizes
  message_sizes present none = (0, 0)
  message_sizes present (some []) = (0, sizes [])
  message_sizes true (some (m ∷ ms)) = (json_size out m, sizes ms)
  message_sizes false (some (m ∷ ms)) = (0, sizes (m ∷ ms))

  unfoldable pub section_sizes : Value → Bool → SectionSizes
  unfolding section message_sizes
  section_sizes value synthetic_present =
      let (synthetic, in_flight) = message_sizes synthetic_present (get_array "messages" value) in
      record {
        system = section "system" value;
        tools = section "tools" value;
        synthetic = synthetic;
        in_flight = in_flight;
      }
