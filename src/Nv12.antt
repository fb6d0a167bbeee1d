-- ===== src/Nv12.antt =====
-- src/nv12_compressed_publisher.cpp: where the two planes of an NV12 image lie, and
-- where a JPEG ends in the output buffer of the codec.
--
-- A pointer into the image's data is an offset from its first byte. `std::size_t` has 64 bits.
pub mod Planes
pub mod Jpeg
pub mod Copy
pub mod Codec
mod Tests
use text.Mathlib.Text.{◌==◌ as str_eq}
use robo_baton_4p_ros2_demo.Prelude.{
  ℕ, zero, suc, ◌+◌, ◌-◌, ◌*◌, ◌/◌, ◌%◌, ◌^◌, Bool, true, false, ◌&&◌, ◌||◌, not, Option, none,
  some, List, length, get_elem?, get_or, ltb, leb, ◌==◌, if◌then◌else◌, Result, ok, throw,
  runtime_error, throw_if, ◌>>=◌, ◌>>◌, String,
}

-- The fields of `sensor_msgs::msg::Image` that are read, with `data.size()`.
pub record Image : Type 0 where
  pub encoding : String
  pub width : ℕ
  pub height : ℕ
  pub step : ℕ
  pub size : ℕ

pub record Nv12Planes : Type 0 where
  pub y_data : ℕ
  pub uv_data : ℕ
  pub width : ℕ
  pub height : ℕ
  pub source_stride : ℕ
  pub chroma_height : ℕ

abbrev pub size_max : ℕ
size_max = 2 ^ 64 - 1

abbrev pub int_max : ℕ
int_max = 2 ^ 31 - 1

unfoldable pub checked_product : ℕ → ℕ → String → Result ℕ
checked_product lhs rhs what =
    if not (lhs == 0) && ltb (size_max / lhs) rhs
    then throw (runtime_error what)
    else ok (lhs * rhs % 2 ^ 64)

unfoldable pub is_bad_metadata : Image → Bool
is_bad_metadata image =
    not (str_eq image.encoding "nv12")
    || image.width == 0
    || image.height == 0
    || not (image.width % 2 == 0)
    || not (image.height % 2 == 0)
    || ltb image.step image.width
    || ltb int_max image.width
    || ltb int_max image.height
    || ltb int_max image.step

-- The span of the luma plane of an image that is not compact.
unfoldable pub padded_span : Image → ℕ → Result ℕ
padded_span image uv_visible_size = do
  denominator ← checked_product image.step 3 "invalid NV12 stride"
  throw_if (ltb (size_max / 2) image.size || not (image.size * 2 % denominator == 0))
      (runtime_error "unsupported NV12 padded image layout")
  let vstride = image.size * 2 / denominator
  throw_if (ltb vstride image.height || not (vstride % 2 == 0))
      (runtime_error "invalid NV12 padded vstride")
  span ← checked_product image.step vstride "invalid NV12 padded luma span"
  throw_if (ltb image.size span || ltb (image.size - span) uv_visible_size)
      (runtime_error "NV12 padded image data does not cover chroma rows")
  ok span

-- The span of the luma plane, given the sizes of the visible rows of both planes.
unfoldable pub plane_span : Image → ℕ → ℕ → Result ℕ
plane_span image y_visible_size uv_visible_size =
    if image.size == (y_visible_size + uv_visible_size) % 2 ^ 64
    then ok y_visible_size
    else padded_span image uv_visible_size

unfoldable pub validate_and_locate_planes : Image → Result Nv12Planes
validate_and_locate_planes image = do
  throw_if (is_bad_metadata image)
      (runtime_error "invalid NV12 image metadata for X5 JPEG compression")
  let chroma_height = image.height / 2
  y_visible_size ← checked_product image.step image.height "invalid NV12 luma plane dimensions"
  uv_visible_size ← checked_product image.step chroma_height "invalid NV12 chroma plane dimensions"
  throw_if (ltb (size_max - uv_visible_size) y_visible_size)
      (runtime_error "invalid NV12 image byte dimensions")
  throw_if (ltb image.size ((y_visible_size + uv_visible_size) % 2 ^ 64))
      (runtime_error "NV12 image data does not cover visible rows")
  y_plane_span ← plane_span image y_visible_size uv_visible_size
  ok (record {
    y_data = 0;
    uv_data = y_plane_span;
    width = image.width;
    height = image.height;
    source_stride = image.step;
    chroma_height = chroma_height;
  })

abbrev pub byte_at : List ℕ → ℕ → ℕ
byte_at bytes i = get_or (get_elem? bytes i) 0

-- The loop of FindJpegEnd, with `index` going down to 2.
unfoldable pub find_end_from : List ℕ → ℕ → Result ℕ
find_end_from bytes zero = throw (runtime_error "X5 JPEG output is missing EOI marker")
find_end_from bytes (suc zero) = throw (runtime_error "X5 JPEG output is missing EOI marker")
find_end_from bytes (suc (suc k)) =
    let rest = find_end_from bytes (suc k) in
    if byte_at bytes k == 0xff && byte_at bytes (suc k) == 0xd9 then ok (suc (suc k)) else rest

-- `none` is a null pointer; the capacity is the length of the data.
unfoldable pub find_jpeg_end : Option (List ℕ) → Result ℕ
unfolding find_end_from
find_jpeg_end none = throw (runtime_error "X5 JPEG output is missing SOI marker")
find_jpeg_end (some bytes) =
    if ltb (length bytes) 4 || not (byte_at bytes 0 == 0xff) || not (byte_at bytes 1 == 0xd8)
    then throw (runtime_error "X5 JPEG output is missing SOI marker")
    else find_end_from bytes (length bytes)
