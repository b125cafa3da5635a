-- ===== src/Inference/Image.antt =====
-- The image that the graph sees: src/inference/image.rs. An image is its size and its pixels; the
-- decoder, the resampling and the arithmetic of f32 are parameters.
use unlimited_ocr_server.Prelude.{
  ℕ, zero, suc, ◌+◌, ◌-◌, ◌/◌, ◌&&◌, ◌||◌, List, [], ◌∷◌, ◌++◌, codes, decimal, ltb, leb, ◌==◌,
  if◌then◌else◌,
}
use unlimited_ocr_server.Types.{FilePath}
use unlimited_ocr_server.Inference.Ort.{Anyhow, fine, ◌>>=◌, ◌>>◌, bail_if}

-- Red, green and blue
abbrev pub Rgb : Type 0
Rgb = ℕ × (ℕ × ℕ)

pub record RgbImage : Type 0 where
  pub width : ℕ
  pub height : ℕ
  pub pixel : (x y : ℕ) → Rgb

-- The crate `image`: `decode` opens a file and turns the image as it says; `resize_exact` is the
-- resampling; `fitted` is the size `(width, height)` scaled to fit a square, rounded, at least one;
-- `normalized` is `(value as f32 / 255.0 - 0.5) / 0.5`.
pub record Images : Type 0 where
  pub decode : FilePath → Anyhow RgbImage
  pub resize_exact : (width height : ℕ) → RgbImage → RgbImage
  pub fitted : (width height image_size : ℕ) → ℕ × ℕ
  pub normalized : ℕ → ℕ

abbrev gray_pad : Rgb
gray_pad = (127, (127, 127))

abbrev exact_resize_limit : ℕ
exact_resize_limit = 640

-- The pixel of the image that lies at `(left, top)` on gray.
abbrev padded_pixel : (image : RgbImage) (left top x y : ℕ) → Rgb
padded_pixel image left top x y =
    if (leb left x && ltb x (left + image.width)) && (leb top y && ltb y (top + image.height))
    then image.pixel (x - left) (y - top)
    else gray_pad

unfoldable pub pad_to_square : RgbImage → (image_size : ℕ) → Anyhow RgbImage
pad_to_square image image_size =
    bail_if (ltb image_size image.width || ltb image_size image.height) (
      codes "resized image "
      ++ (decimal image.width
          ++ (codes "x"
              ++ (decimal image.height
                  ++ (codes " does not fit target square "
                      ++ (decimal image_size ++ (codes "x" ++ decimal image_size)))))))
    >>= (λ _. fine (record {
      width = image_size;
      height = image_size;
      pixel = padded_pixel image ((image_size - image.width) / 2) ((image_size - image.height) / 2);
    }))

module _ (images : Images) where
  unfoldable pub resize_to_fit : RgbImage → (image_size : ℕ) → Anyhow RgbImage
  resize_to_fit image image_size =
      bail_if (image.width == 0 || image.height == 0)
        (codes "image dimensions must be greater than zero")
      >>= (λ _.
          let (width, height) = images.fitted image.width image.height image_size in
          fine (images.resize_exact width height image))

  abbrev channel : ℕ → Rgb → ℕ
  channel c (red, (green, blue)) = if c == 0 then red else if c == 1 then green else blue

  -- The values of a row from column `x`, of a channel from row `y`.
  abbrev row_values : RgbImage → (c y left x : ℕ) → List ℕ
  row_values image c y zero x = []
  row_values image c y (suc left) x =
      images.normalized (channel c (image.pixel x y)) ∷ row_values image c y left (suc x)

  abbrev plane_values : RgbImage → (c left y : ℕ) → List ℕ
  plane_values image c zero y = []
  plane_values image c (suc left) y =
      row_values image c y image.width 0 ++ plane_values image c left (suc y)

  -- One plane a channel, row by row.
  unfoldable pub normalize_chw : RgbImage → List ℕ
  normalize_chw image =
      plane_values image 0 image.height 0
      ++ (plane_values image 1 image.height 0 ++ plane_values image 2 image.height 0)

  unfoldable pub preprocess_image : RgbImage → (image_size : ℕ) → Anyhow (List ℕ)
  unfolding resize_to_fit pad_to_square normalize_chw
  preprocess_image image image_size = do
    bail_if (image_size == 0) (codes "image_size must be greater than zero")
    contained ←
        (if leb image_size exact_resize_limit
          then fine (images.resize_exact image_size image_size image)
          else resize_to_fit image image_size)
    padded ← pad_to_square contained image_size
    fine (normalize_chw padded)

  unfoldable pub prepare_image : FilePath → (image_size : ℕ) → Anyhow (List ℕ × (ℕ × ℕ))
  unfolding preprocess_image
  prepare_image image_path image_size = do
    image ← images.decode image_path
    image_array ← preprocess_image image image_size
    fine (image_array, (image.width, image.height))
