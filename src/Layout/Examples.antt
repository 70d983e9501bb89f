-- ===== src/Layout/Examples.antt =====
-- The theorem on images at a concrete image.
use network_analytics_predic.Layout.Image.{
  HasFormat, validate_node_image-accepted, ImageInput, validate_node_image,
}
use network_analytics_predic.Prelude.{lower, ◌≤◌, ◌↔◌, true, ◌≡◌, ◌∷◌, [], some}

abbrev jpeg : ImageInput
jpeg = record {
  type = some "image/JPEG";
  size = some 2048;
  bytes = some (255 ∷ 216 ∷ 255 ∷ 224 ∷ []);
}

image_example :
    ((validate_node_image jpeg).accepted ≡ true)
    ↔ ((1 ≤ 2048) × (2048 ≤ 524288) × HasFormat (lower "image/JPEG") (255 ∷ 216 ∷ 255 ∷ 224 ∷ []))
image_example = validate_node_image-accepted jpeg
