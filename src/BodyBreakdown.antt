-- ===== src/BodyBreakdown.antt =====
-- src/body_breakdown.rs: where the bytes of a request are.
pub mod Images
mod Tests
use ostk_cache.Prelude.{
  ℕ, ◌+◌, Bool, true, false, ◌||◌, List, [], ◌∷◌, ◌++◌, Option, none, some, Text, codes, eqb, ltb,
  if◌then◌else◌, length, unwrap_or,
}
use ostk_cache.Json.{Value, get, get_str, get_array, str, array, to_list}
use ostk_cache.Size.{Printer, json_size, decimal}

pub record BodyBreakdown : Type 0 where
  pub total : ℕ
  pub system : ℕ
  pub tools : ℕ
  pub messages_count : ℕ
  pub content_text : ℕ
  pub content_tool_use : ℕ
  pub content_tool_result : ℕ
  pub content_images : ℕ
  pub image_count : ℕ
  pub largest_image : ℕ

unfoldable pub kind_of : Value → Text
kind_of block = unwrap_or (get_str "type" block) []

unfoldable pub is_image : Text → Bool
is_image kind = eqb kind (codes "image") || eqb kind (codes "document")

unfoldable pub count_image : ℕ → BodyBreakdown → BodyBreakdown
count_image size b = record b {
  content_images = b.content_images + size;
  image_count = b.image_count + 1;
  largest_image = if ltb b.largest_image size then size else b.largest_image;
}

module _ (out : Printer) where
  unfoldable pub count_inner : List Value → BodyBreakdown → BodyBreakdown
  unfolding count_image
  count_inner [] b = b
  count_inner (block ∷ blocks) b =
      count_inner blocks
        (if is_image (kind_of block) then count_image (json_size out block) b else b)

  -- What is no array holds no images to tally.
  unfoldable pub walk_tool_result_inner : Option Value → BodyBreakdown → BodyBreakdown
  unfolding count_inner
  walk_tool_result_inner (some (array blocks)) b = count_inner (to_list blocks) b
  walk_tool_result_inner _ b = b

  unfoldable pub count_block : Text → Value → BodyBreakdown → BodyBreakdown
  unfolding walk_tool_result_inner count_image
  count_block kind block b =
      let size = json_size out block in
      if eqb kind (codes "text")
      then record b { content_text = b.content_text + size }
      else if eqb kind (codes "tool_use")
      then record b { content_tool_use = b.content_tool_use + size }
      else if eqb kind (codes "tool_result")
      then walk_tool_result_inner (get "content" block)
          (record b { content_tool_result = b.content_tool_result + size })
      else if is_image kind
      then count_image size b
      else b

  unfoldable pub count_blocks : List Value → BodyBreakdown → BodyBreakdown
  unfolding count_block
  count_blocks [] b = b
  count_blocks (block ∷ blocks) b = count_blocks blocks (count_block (kind_of block) block b)

  unfoldable pub walk_content : Value → BodyBreakdown → BodyBreakdown
  unfolding count_blocks
  walk_content (str s) b = record b { content_text = b.content_text + length s }
  walk_content (array blocks) b = count_blocks (to_list blocks) b
  walk_content _ b = b

  unfoldable pub walk_messages : List Value → BodyBreakdown → BodyBreakdown
  unfolding walk_content
  walk_messages [] b = b
  walk_messages (msg ∷ msgs) b =
      walk_messages msgs (elim (get "content" msg) as (λ _. BodyBreakdown) [
        | none ↦ b
        | some content ↦ walk_content content b
      ])

  size_under : Option Value → ℕ
  size_under none = 0
  size_under (some v) = json_size out v

  -- The counters before the messages are walked.
  unfoldable pub sections : Value → ℕ → BodyBreakdown
  unfolding size_under
  sections req messages = record {
    total = json_size out req;
    system = size_under (get "system" req);
    tools = size_under (get "tools" req);
    messages_count = messages;
    content_text = 0;
    content_tool_use = 0;
    content_tool_result = 0;
    content_images = 0;
    image_count = 0;
    largest_image = 0;
  }

  unfoldable pub measure : Value → Option (List Value) → BodyBreakdown
  unfolding sections walk_messages
  measure req none = sections req 0
  measure req (some messages) = walk_messages messages (sections req (length messages))

  unfoldable pub measure_body : Value → BodyBreakdown
  unfolding measure
  measure_body req = measure req (get_array "messages" req)

unfoldable pub summarize : BodyBreakdown → Text
summarize b =
    codes "total="
    ++ (decimal b.total
        ++ (codes " sys="
            ++ (decimal b.system
                ++ (codes " tools="
                    ++ (decimal b.tools
                        ++ (codes " msgs="
                            ++ (decimal b.messages_count
                                ++ (codes " text="
                                    ++ (decimal b.content_text
                                        ++ (codes " tool_use="
                                            ++ (decimal b.content_tool_use
                                                ++ (codes " tool_result="
                                                    ++ (decimal b.content_tool_result
                                                        ++ (codes " images="
                                                            ++ (decimal b.content_images
                                                            ++ (codes " (n="
                                                            ++ (decimal b.image_count
                                                            ++ (codes " max="
                                                            ++ (decimal b.largest_image
                                                            ++ codes ")")))))))))))))))))))
