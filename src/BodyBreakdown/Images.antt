-- ===== src/BodyBreakdown/Images.antt =====
-- The image counters of src/body_breakdown.rs.
use ostk_cache.Prelude.{◌*◌, ◌≤◌}
use ostk_cache.BodyBreakdown.{BodyBreakdown}

-- The largest image is one of those counted, and none is larger.
pub record ImagesAgree (b : BodyBreakdown) : Type 0 where
  pub within_sum : b.largest_image ≤ b.content_images
  pub covers : b.content_images ≤ b.image_count * b.largest_image
