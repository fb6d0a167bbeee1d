-- ===== src/Camera/Publish/Planes.antt =====
-- The message of a frame: its stamp, and what the compression makes of its data.
use robo_baton_4p_ros2_demo.Prelude.{
  ℕ, zero, suc, ◌+◌, ◌*◌, ◌/◌, ◌^◌, ◌<◌, ◌≡◌, refl, sym, ap, ◌∙◌, Bool, true, false, some, List, [],
  ◌∷◌, ◌++◌, length, get_elem?, get_or, length-append, ok, arith, ◌>>=◌, ◌>>◌, throw_if,
  runtime_error, >>=-eq-ok, throw_if-eq-ok, if◌then◌else◌,
}
use robo_baton_4p_ros2_demo.Timestamp.{
  SensorTimestampMapperSnapshot, RosStampParts, map_monotonic_raw_to_realtime_ns,
  to_ros_stamp_parts,
}
use robo_baton_4p_ros2_demo.Timestamp.Offset.{IsInt64, IsDifference}
use robo_baton_4p_ros2_demo.Timestamp.Stamp.{stamp_ns, to_ros_stamp_parts_iff, mapped_stamp}
use robo_baton_4p_ros2_demo.Nv12.Planes.{compact_accepted}
use robo_baton_4p_ros2_demo.Nv12.{Image as InputImage, is_bad_metadata, validate_and_locate_planes}
use robo_baton_4p_ros2_demo.Camera.Frame.{FrameInfo, RetainedFrameJob}
use robo_baton_4p_ros2_demo.Camera.Publish.{
  Config, Image, header_stamp_from_frame, image_of_frame, read_bytes, is_bad_size, is_bad_camera,
  message_of, sc132_timestamps_are_monotonic_raw,
}

chosen_stamp :
    (raw : Bool) (mapper : SensorTimestampMapperSnapshot) (t : ℕ) (stamp : RosStampParts)
    → IsInt64 mapper.realtime_minus_monotonic_raw_ns
    → t < 2 ^ 64
    → (if raw
        then map_monotonic_raw_to_realtime_ns mapper t >>= to_ros_stamp_parts
        else to_ros_stamp_parts t)
      ≡ ok stamp
    → (if raw
        then IsDifference (stamp_ns stamp) t mapper.realtime_minus_monotonic_raw_ns
        else stamp_ns stamp ≡ t)
      × (stamp.nanosec < 1000000000)
      × (stamp.sec < 2 ^ 31)
chosen_stamp true mapper t stamp fits small h = mapped_stamp mapper t stamp fits small h
chosen_stamp false mapper t stamp fits small h = (to_ros_stamp_parts_iff t stamp).0 h

-- A stamp that is assigned stands for the time of the frame: for the raw time stamp plus the offset of
-- the mapper where the trigger mode is one with raw time stamps, and for the time stamp itself
-- otherwise; its nanoseconds are fewer than 10 ^ 9 and its seconds fit int32_t. The offset fits int64_t,
-- and the time stamp 64 bits.
pub header_stamp :
    (config : Config) (mapper : SensorTimestampMapperSnapshot) (info : FrameInfo)
    (stamp : RosStampParts)
    → IsInt64 mapper.realtime_minus_monotonic_raw_ns
    → info.timestamp_ns < 2 ^ 64
    → header_stamp_from_frame config mapper info ≡ ok stamp
    → (if sc132_timestamps_are_monotonic_raw config.options
        then IsDifference (stamp_ns stamp) info.timestamp_ns mapper.realtime_minus_monotonic_raw_ns
        else stamp_ns stamp ≡ info.timestamp_ns)
      × (stamp.nanosec < 1000000000)
      × (stamp.sec < 2 ^ 31)
unfolding header_stamp_from_frame
header_stamp config mapper info stamp fits small h =
    chosen_stamp (sc132_timestamps_are_monotonic_raw config.options) mapper info.timestamp_ns stamp
      fits small h

length-read_bytes : (memory : ℕ → ℕ) (address n : ℕ) → length (read_bytes memory address n) ≡ n
unfolding read_bytes
length-read_bytes memory address zero = refl
length-read_bytes memory address (suc n) = omega (arith, length-read_bytes memory (address + 1) n)

get_elem?-read_bytes :
    (memory : ℕ → ℕ) (address n k : ℕ)
    → k < n
    → get_elem? (read_bytes memory address n) k ≡ some (memory (address + k))
unfolding read_bytes
get_elem?-read_bytes memory address zero k h = absurd (omega (arith, h))
get_elem?-read_bytes memory address (suc n) zero h = ground arith
get_elem?-read_bytes memory address (suc n) (suc k) h =
    ground (arith, h, get_elem?-read_bytes memory (address + 1) n k)

get_elem?-left : (xs ys : List ℕ) (k : ℕ) → k < length xs → get_elem? (xs ++ ys) k ≡ get_elem? xs k
get_elem?-left [] ys k h = absurd (omega (arith, h))
get_elem?-left (x ∷ xs) ys zero h = refl
get_elem?-left (x ∷ xs) ys (suc k) h = get_elem?-left xs ys k (omega (arith, h))

get_elem?-right : (xs ys : List ℕ) (k : ℕ) → get_elem? (xs ++ ys) (length xs + k) ≡ get_elem? ys k
get_elem?-right [] ys k = ground arith
get_elem?-right (x ∷ xs) ys k = ground (arith, get_elem?-right xs ys k)

-- What the compression reads of a message.
unfoldable pub input_of : Image → InputImage
input_of message = record {
  encoding = message.encoding;
  width = message.width;
  height = message.height;
  step = message.step;
  size = length message.bytes;
}

-- A frame with even sides whose planes hold its rows and no more.
unfoldable pub IsCompact : FrameInfo → Type 0
IsCompact info =
    (info.y_size ≡ info.stride * info.height) × (info.uv_size ≡ info.stride * (info.height / 2))

length-planes :
    (memory : ℕ → ℕ) (y uv m n : ℕ)
    → length (read_bytes memory y m ++ read_bytes memory uv n) ≡ m + n
length-planes memory y uv m n = omega (
  arith,
  length-append (read_bytes memory y m) (read_bytes memory uv n),
  length-read_bytes memory y m,
  length-read_bytes memory uv n,
)

pub made_of :
    (config : Config) (mapper : SensorTimestampMapperSnapshot) (memory : ℕ → ℕ)
    (job : RetainedFrameJob) (message : Image)
    → image_of_frame config mapper memory job ≡ ok message
    → (stamp : RosStampParts) × (header_stamp_from_frame config mapper job.info ≡ ok stamp)
      × (message ≡ message_of config memory job stamp)
unfolding image_of_frame
made_of config mapper memory job message h =
    let (sized, h₁) =
      throw_if-eq-ok (is_bad_size job) (runtime_error "invalid SC132 frame size")
        (throw_if (is_bad_camera config job.info.camera_id)
            (runtime_error "invalid SC132 camera id")
          >> (header_stamp_from_frame config mapper job.info >>= λ stamp.
              ok (message_of config memory job stamp)))
        h in
    let (known, h₂) =
      throw_if-eq-ok (is_bad_camera config job.info.camera_id)
        (runtime_error "invalid SC132 camera id")
        (header_stamp_from_frame config mapper job.info >>= λ stamp.
          ok (message_of config memory job stamp))
        h₁ in
    let (stamp, stamped, h₃) =
      >>=-eq-ok (header_stamp_from_frame config mapper job.info)
        (λ stamp. ok (message_of config memory job stamp)) h₂ in
    (stamp, stamped, cc h₃)

located :
    (message : Image) (info : FrameInfo)
    → message.width ≡ info.width
    → message.height ≡ info.height
    → message.step ≡ info.stride
    → length message.bytes ≡ info.y_size + info.uv_size
    → IsCompact info
    → is_bad_metadata (input_of message) ≡ false
    → validate_and_locate_planes (input_of message)
      ≡ ok (record {
        y_data = 0;
        uv_data = info.y_size;
        width = info.width;
        height = info.height;
        source_stride = info.stride;
        chroma_height = info.height / 2;
      })
unfolding input_of IsCompact
located message info w h t size (luma, chroma) fine =
    compact_accepted (input_of message) fine (cc (size, luma, chroma, h, t)) ∙ cc (w, h, t, luma)

-- The message of a compact frame, if the check of the metadata does not refuse it, is one that the
-- compression accepts; the planes that it finds there
-- are those of the frame, byte by byte.
pub published_planes :
    (config : Config) (mapper : SensorTimestampMapperSnapshot) (memory : ℕ → ℕ)
    (job : RetainedFrameJob) (message : Image)
    → image_of_frame config mapper memory job ≡ ok message
    → is_bad_metadata (input_of message) ≡ false
    → IsCompact job.info
    → (validate_and_locate_planes (input_of message)
        ≡ ok (record {
          y_data = 0;
          uv_data = job.info.y_size;
          width = job.info.width;
          height = job.info.height;
          source_stride = job.info.stride;
          chroma_height = job.info.height / 2;
        }))
      × ((k : ℕ)
          → k < job.info.y_size
          → get_elem? message.bytes k ≡ some (memory (get_or job.info.y_data 0 + k)))
      × ((k : ℕ)
          → k < job.info.uv_size
          → get_elem? message.bytes (job.info.y_size + k)
            ≡ some (memory (get_or job.info.uv_data 0 + k)))
unfolding input_of IsCompact
published_planes config mapper memory job message h fine (luma, chroma) =
    let (stamp, stamped, made) = made_of config mapper memory job message h in
    let y = read_bytes memory (get_or job.info.y_data 0) job.info.y_size in
    let uv = read_bytes memory (get_or job.info.uv_data 0) job.info.uv_size in
    let length_y : length y ≡ job.info.y_size = length-read_bytes memory _ job.info.y_size in
    let size : length message.bytes ≡ job.info.y_size + job.info.uv_size =
      ap (λ x. length x.bytes) made
      ∙ length-planes memory (get_or job.info.y_data 0) (get_or job.info.uv_data 0) job.info.y_size
          job.info.uv_size in
    (
      located message job.info (ap (λ x. x.width) made) (ap (λ x. x.height) made)
          (ap (λ x. x.step) made) size (luma, chroma) fine,
      λ k low.
          ap (λ x. get_elem? x.bytes k) made
          ∙ get_elem?-left y uv k (omega (arith, low, length_y))
          ∙ get_elem?-read_bytes memory _ job.info.y_size k low,
      λ k low.
          ap (λ x. get_elem? x.bytes (job.info.y_size + k)) made
          ∙ ap (λ n. get_elem? (y ++ uv) (n + k)) (sym length_y)
          ∙ get_elem?-right y uv k
          ∙ get_elem?-read_bytes memory _ job.info.uv_size k low,
    )
