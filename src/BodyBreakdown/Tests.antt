-- ===== src/BodyBreakdown/Tests.antt =====
-- Runs of src/body_breakdown.rs, with a printer that prints everything as `null`.
use ostk_cache.Prelude.{◌≡◌, refl, some, codes, eqb}
use ostk_cache.Json.{Value, str, array, object, nil, cons, end, entry, get, get_str, get_array}
use ostk_cache.Size.{Printer, json_size}
use ostk_cache.BodyBreakdown.{
  measure_body, measure, sections, walk_messages, walk_content, count_blocks, count_block, kind_of,
  is_image, count_image, walk_tool_result_inner, count_inner,
}

abbrev printer : Printer
printer = record { to_string = λ v. some (codes "null"); one_decimal = λ a b. codes "1.0" }

abbrev image : Value
image = object (entry "type" (str (codes "image")) end)

abbrev body : Value
body = object (
    entry "messages"
      (array (
        cons
          (object (
            entry "content"
              (array (
                cons image (
                  cons
                    (object (
                      entry "content" (array (cons image nil))
                        (entry "type" (str (codes "tool_result")) end)))
                    nil)))
              end))
          nil))
      end)

images_counted : (measure_body printer body).image_count ≡ 2
unfolding measure_body measure sections walk_messages walk_content count_blocks count_block kind_of
    is_image count_image walk_tool_result_inner count_inner eqb get get_str get_array json_size
images_counted = refl
