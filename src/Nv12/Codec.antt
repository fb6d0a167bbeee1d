-- ===== src/Nv12/Codec.antt =====
-- X5Nv12JpegEncoder of src/nv12_compressed_publisher.cpp: the context of the codec, which EnsureContext
-- makes for the size of an image, Encode uses, and Reset gives back.
--
-- The codec is a vendor library: what its calls return is an argument (`CodecReplies`). `calls` records
-- them, newest first; those that can make or start something with whether they succeeded.
pub mod Context
use Prim.Native.String.{◌++◌ as concat}
use robo_baton_4p_ros2_demo.Prelude.{
  ℕ, ◌+◌, ◌-◌, ◌*◌, ◌/◌, ◌%◌, ◌^◌, ◌<◌, ◌≡◌, refl, Bool, true, false, ◌&&◌, ◌||◌, not, Option, none,
  some, get_or, take, List, [], ◌∷◌, ltb, ltb_ℤ, ◌==◌, if◌then◌else◌, ℤ, pos, ◌==ℤ◌, Result, ok,
  throw, Exception, invalid_argument, runtime_error, throw_if, ◌>>=◌, ◌>>◌, String, to_string,
  arith,
}
use robo_baton_4p_ros2_demo.Nv12.{Image, Nv12Planes, validate_and_locate_planes, find_jpeg_end}
use robo_baton_4p_ros2_demo.Nv12.Copy.{CodecInput, copy_into_codec_input}

-- The parameters of the context that depend on the image.
pub record EncoderParams : Type 0 where
  pub width : ℕ
  pub height : ℕ
  pub bitstream_buf_size : ℕ
  pub quality_factor : ℤ
  pub restart_interval : ℕ

pub data CodecCall : Type 0 where
  initialize : EncoderParams → Bool → CodecCall
  configure : CodecCall
  start : Bool → CodecCall
  pause release : CodecCall
  dequeue_input queue_input dequeue_output queue_output : CodecCall

-- `X5Nv12JpegEncoder`
pub record Encoder : Type 0 where
  pub jpeg_quality : ℤ
  pub width : ℕ
  pub height : ℕ
  pub initialized : Bool
  pub started : Bool
  pub calls : List CodecCall

-- The constructor.
unfoldable pub new_encoder : ℤ → Result Encoder
new_encoder jpeg_quality = do
  throw_if (ltb_ℤ jpeg_quality (pos 1) || ltb_ℤ (pos 100) jpeg_quality)
      (invalid_argument "JPEG quality must be between 1 and 100")
  ok (record {
    jpeg_quality = jpeg_quality;
    width = 0;
    height = 0;
    initialized = false;
    started = false;
    calls = [];
  })

-- What the calls return: their status, the input buffer, and the data of the output buffer.
pub record CodecReplies : Type 0 where
  pub initialize_status : ℤ
  pub configure_status : ℤ
  pub start_status : ℤ
  pub dequeue_input_status : ℤ
  pub input : CodecInput
  pub queue_input_status : ℤ
  pub dequeue_output_status : ℤ
  pub output : Option (List ℕ)
  pub queue_output_status : ℤ

abbrev pub is_done : ℤ → Bool
is_done status = status ==ℤ pos 0

-- The exception of CheckCodec.
abbrev pub codec_error : String → ℤ → Exception
codec_error operation status =
    runtime_error (
      concat (concat (concat "X5 media codec failed to " operation) ", status=") (to_string status))

abbrev pub check_codec : ℤ → String → Result (Unit {0})
check_codec status operation = throw_if (not (is_done status)) (codec_error operation status)

-- Reset, which the destructor calls too.
unfoldable pub reset : Encoder → Encoder
reset e =
    let paused = if e.started then pause ∷ e.calls else e.calls in
    record e {
      width = 0;
      height = 0;
      initialized = false;
      started = false;
      calls = if e.initialized then release ∷ paused else paused;
    }

abbrev pub bitstream_size : ℕ → ℕ → ℕ
bitstream_size width height =
    let x = (width * height % 2 ^ 64 * 3 % 2 ^ 64 / 2 + 4095) % 2 ^ 64 in x - x % 4096

abbrev pub params_of : Encoder → ℕ → ℕ → EncoderParams
params_of e width height = record {
  width = width;
  height = height;
  bitstream_buf_size = bitstream_size width height;
  quality_factor = e.jpeg_quality;
  restart_interval = width / 16;
}

-- `hb_mm_mc_start`, the last call of EnsureContext.
unfoldable pub start_context : ℕ → ℕ → CodecReplies → Encoder → Encoder × Result (Unit {0})
start_context width height r e =
    let called = record e { calls = start (is_done r.start_status) ∷ e.calls } in
    if is_done r.start_status
    then (record called { started = true; width = width; height = height }, ok tt)
    else (called, throw (codec_error "start JPEG encoder" r.start_status))

-- From `hb_mm_mc_initialize` on.
unfoldable pub initialize_context : ℕ → ℕ → CodecReplies → Encoder → Encoder × Result (Unit {0})
unfolding start_context
initialize_context width height r e =
    let called = record e {
      calls = initialize (params_of e width height) (is_done r.initialize_status) ∷ e.calls;
    } in
    let configured = record called { initialized = true; calls = configure ∷ called.calls } in
    if not (is_done r.initialize_status)
    then (called, throw (codec_error "initialize JPEG encoder" r.initialize_status))
    else if not (is_done r.configure_status)
    then (configured, throw (codec_error "configure JPEG encoder" r.configure_status))
    else start_context width height r configured

unfoldable pub ensure_context : ℕ → ℕ → CodecReplies → Encoder → Encoder × Result (Unit {0})
unfolding reset initialize_context
ensure_context width height r e =
    let size = bitstream_size width height in
    if e.started && width == e.width && height == e.height
    then (e, ok tt)
    else if size == 0 || ltb (2 ^ 32 - 1) size
    then (reset e, throw (runtime_error "invalid X5 JPEG bitstream capacity"))
    else initialize_context width height r (reset e)

-- The copy of the output up to the end of the JPEG.
abbrev pub jpeg_of : Option (List ℕ) → Result (List ℕ)
jpeg_of output = find_jpeg_end output >>= λ jpeg_size. ok (take jpeg_size (get_or output []))

-- The `try` of Encode, from its last call back to its first: each is made if nothing was thrown
-- before it.
abbrev pub return_output :
    CodecReplies → List CodecCall → Result (List ℕ) → List CodecCall × Result (List ℕ)
return_output r calls (throw e) = (calls, throw e)
return_output r calls (ok jpeg) =
    (queue_output ∷ calls, check_codec r.queue_output_status "queue JPEG output buffer" >> ok jpeg)

abbrev pub take_output :
    CodecReplies → List CodecCall → Result (Unit {0}) → List CodecCall × Result (List ℕ)
take_output r calls (throw e) = (calls, throw e)
take_output r calls (ok x) =
    return_output r (dequeue_output ∷ calls)
      (check_codec r.dequeue_output_status "dequeue JPEG output buffer" >> jpeg_of r.output)

abbrev pub queue_copied :
    CodecReplies → List CodecCall → Result (Unit {0}) → List CodecCall × Result (List ℕ)
queue_copied r calls (throw e) = (calls, throw e)
queue_copied r calls (ok x) =
    take_output r (queue_input ∷ calls) (check_codec r.queue_input_status "queue JPEG input buffer")

unfoldable pub encode_planes :
    Nv12Planes → CodecReplies → List CodecCall → List CodecCall × Result (List ℕ)
encode_planes planes r calls = queue_copied r (dequeue_input ∷ calls) (
    check_codec r.dequeue_input_status "dequeue JPEG input buffer"
    >> (copy_into_codec_input planes (some r.input) >>= λ copies. ok tt))

-- The handler of the `try`.
abbrev pub reset_if_thrown : Encoder → List CodecCall × Result (List ℕ) → Encoder × Result (List ℕ)
reset_if_thrown e (calls, throw x) = (reset (record e { calls = calls }), throw x)
reset_if_thrown e (calls, ok jpeg) = (record e { calls = calls }, ok jpeg)

abbrev pub encode_in :
    Nv12Planes → CodecReplies → Encoder × Result (Unit {0}) → Encoder × Result (List ℕ)
encode_in planes r (e, throw x) = (e, throw x)
encode_in planes r (e, ok started) = reset_if_thrown e (encode_planes planes r e.calls)

abbrev pub encode_located : CodecReplies → Encoder → Result Nv12Planes → Encoder × Result (List ℕ)
encode_located r e (throw x) = (e, throw x)
encode_located r e (ok planes) = encode_in planes r (ensure_context planes.width planes.height r e)

-- Encode: the context of the encoder after it, and the JPEG or what it throws.
unfoldable pub encode : Image → CodecReplies → Encoder → Encoder × Result (List ℕ)
unfolding reset ensure_context encode_planes
encode image r e = encode_located r e (validate_and_locate_planes image)
