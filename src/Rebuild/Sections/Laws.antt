-- ===== src/Rebuild/Sections/Laws.antt =====
-- The section sizes of src/rebuild.rs: their sum, and the one that is named as dominant.
use ostk_cache.Prelude.{
  ℕ, ◌+◌, ◌≡◌, refl, true, false, List, [], ◌∷◌, Option, none, some, String, arith, max,
}
use ostk_cache.Json.{Value, get_array}
use ostk_cache.Size.{Printer}
use ostk_cache.Rebuild.Sections.{
  SectionSizes, total, larger, dominant, sizes, message_sizes, section_sizes,
}

larger-max : (lead next : String × ℕ) → (larger lead next).1 ≡ max lead.1 next.1
unfolding larger
larger-max lead next = ground arith

-- The dominant section has the largest of the four sizes.
pub dominant-max :
    (s : SectionSizes) → (dominant s).1 ≡ max (max (max s.system s.tools) s.synthetic) s.in_flight
unfolding dominant
dominant-max s =
    let a = larger-max ("system", s.system) ("tools", s.tools) in
    let b =
      larger-max (larger ("system", s.system) ("tools", s.tools)) ("synthetic", s.synthetic) in
    let c =
      larger-max
        (larger (larger ("system", s.system) ("tools", s.tools)) ("synthetic", s.synthetic))
        ("in_flight", s.in_flight) in
    ground arith

message_sizes-sum :
    (out : Printer) (o : Option (List Value))
    → (message_sizes out true o).0 + (message_sizes out true o).1
      ≡ (message_sizes out false o).0 + (message_sizes out false o).1
unfolding message_sizes sizes
message_sizes-sum out none = refl
message_sizes-sum out (some []) = refl
message_sizes-sum out (some (m ∷ ms)) = omega arith

-- Naming the first message as synthesized moves its bytes between two sections: the sum of all four
-- is the same.
pub total-section_sizes :
    (out : Printer) (value : Value)
    → total (section_sizes out value true) ≡ total (section_sizes out value false)
unfolding total section_sizes
total-section_sizes out value = ground (arith, message_sizes-sum out (get_array "messages" value))
