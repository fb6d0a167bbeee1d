-- ===== src/Nv12/Tests.antt =====
-- NV12 images and JPEG buffers at concrete values, and the theorems of the modules beside this one
-- there.
use robo_baton_4p_ros2_demo.Nv12.Codec.{
  CodecReplies, Encoder, new_encoder, reset, ensure_context, initialize_context, start_context,
  encode_planes, encode,
}
use robo_baton_4p_ros2_demo.Nv12.Codec.Context.{
  made, released, started, paused, encode_all, contexts_released,
}
use robo_baton_4p_ros2_demo.Prelude.{
  ℕ, false, ◌+◌, ◌*◌, ◌≤◌, ◌≡◌, refl, List, [], ◌∷◌, some, ok, throw, runtime_error, arith,
}
use robo_baton_4p_ros2_demo.Nv12.{
  Image, Nv12Planes, validate_and_locate_planes, checked_product, plane_span, padded_span,
  is_bad_metadata, find_jpeg_end, find_end_from,
}
use robo_baton_4p_ros2_demo.Nv12.Planes.{validate_and_locate_planes-InBounds, compact_accepted}
use robo_baton_4p_ros2_demo.Nv12.Jpeg.{IsLastEnd, find_jpeg_end_iff}
use robo_baton_4p_ros2_demo.Nv12.Copy.{
  CodecInput, RowCopy, Within, copy_rows, copy_planes, copy_into_codec_input,
  copy_into_codec_input-Within,
}
use robo_baton_4p_ros2_demo.Prelude.{pos}

-- Six rows of eight bytes, of which six are visible, in planes of eight and four rows.
abbrev padded : Image
padded = record { encoding = "nv12"; width = 6; height = 6; step = 8; size = 96 }

abbrev padded_planes : Nv12Planes
padded_planes = record {
  y_data = 0;
  uv_data = 64;
  width = 6;
  height = 6;
  source_stride = 8;
  chroma_height = 3;
}

padded_located : validate_and_locate_planes padded ≡ ok padded_planes
unfolding validate_and_locate_planes checked_product plane_span padded_span is_bad_metadata
padded_located = refl

-- The last row of the chroma plane ends in the data.
validate_and_locate_planes-InBounds_example : 64 + 2 * 8 + 6 ≤ padded.size
validate_and_locate_planes-InBounds_example =
    (validate_and_locate_planes-InBounds padded padded_planes padded_located).chroma_rows 2
      (omega arith)

abbrev compact : Image
compact = record { encoding = "nv12"; width = 6; height = 6; step = 8; size = 72 }

compact_valid : is_bad_metadata compact ≡ false
unfolding is_bad_metadata
compact_valid = refl

short_refused :
    validate_and_locate_planes (record compact { size = 71 })
    ≡ throw (runtime_error "NV12 image data does not cover visible rows")
unfolding validate_and_locate_planes checked_product plane_span padded_span is_bad_metadata
short_refused = refl

-- Two end markers, and two bytes of padding.
abbrev jpeg : List ℕ
jpeg = 0xff ∷ 0xd8 ∷ 7 ∷ 0xff ∷ 0xd9 ∷ 9 ∷ 0xff ∷ 0xd9 ∷ 0 ∷ 0 ∷ []

jpeg_end : find_jpeg_end (some jpeg) ≡ ok 8
unfolding find_jpeg_end find_end_from
jpeg_end = refl

find_jpeg_end_iff_example : IsLastEnd jpeg 10 8
find_jpeg_end_iff_example = ((find_jpeg_end_iff jpeg 8).0 jpeg_end).1

abbrev roomy : CodecInput
roomy = record {
  y_is_null = false;
  uv_is_null = false;
  stride = pos 16;
  vstride = pos 0;
  y_capacity = 96;
  uv_capacity = 48;
}

abbrev luma_copies : List RowCopy
luma_copies = copy_rows 6 0 16 0 8 6

abbrev chroma_copies : List RowCopy
chroma_copies = copy_rows 3 0 16 64 8 6

copied : copy_into_codec_input padded_planes (some roomy) ≡ ok (luma_copies, chroma_copies)
unfolding copy_into_codec_input
copied = refl

copy_into_codec_input-Within_example :
    Within 96 padded.size luma_copies × Within 48 padded.size chroma_copies
copy_into_codec_input-Within_example =
    copy_into_codec_input-Within padded padded_planes roomy luma_copies chroma_copies
      (validate_and_locate_planes-InBounds padded padded_planes padded_located) refl (omega arith)
      (omega arith) (omega arith) (omega arith) copied

-- A codec that does what it is asked, and whose output is an empty JPEG.
abbrev replies : CodecReplies
replies = record {
  initialize_status = pos 0;
  configure_status = pos 0;
  start_status = pos 0;
  dequeue_input_status = pos 0;
  input = record {
    y_is_null = false;
    uv_is_null = false;
    stride = pos 4;
    vstride = pos 4;
    y_capacity = 8;
    uv_capacity = 8;
  };
  queue_input_status = pos 0;
  dequeue_output_status = pos 0;
  output = some (0xff ∷ 0xd8 ∷ 0xff ∷ 0xd9 ∷ []);
  queue_output_status = pos 0;
}

-- An image of four by two pixels.
abbrev small_image : Image
small_image = record { encoding = "nv12"; width = 4; height = 2; step = 4; size = 12 }

abbrev encoder : Encoder
encoder = record {
  jpeg_quality = pos 80;
  width = 0;
  height = 0;
  initialized = false;
  started = false;
  calls = [];
}

contexts_released_example :
    let calls = (reset (encode_all ((small_image, replies) ∷ []) encoder)).calls in
    (made calls ≡ released calls) × (started calls ≡ paused calls)
unfolding new_encoder
contexts_released_example = contexts_released (pos 80) encoder ((small_image, replies) ∷ []) refl

small_planes :
    validate_and_locate_planes small_image
    ≡ ok (record {
      y_data = 0;
      uv_data = 8;
      width = 4;
      height = 2;
      source_stride = 4;
      chroma_height = 1;
    })
unfolding is_bad_metadata
small_planes = compact_accepted small_image (ground arith) refl

encoded : (encode small_image replies encoder).1 ≡ ok (0xff ∷ 0xd8 ∷ 0xff ∷ 0xd9 ∷ [])
unfolding encode ensure_context initialize_context start_context reset encode_planes
    copy_into_codec_input copy_planes find_jpeg_end find_end_from
encoded = rw small_planes refl
