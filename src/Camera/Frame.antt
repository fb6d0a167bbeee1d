-- ===== src/Camera/Frame.antt =====
-- The frames of include/robobaton_4p_ros2_demo/sc132camera.h and RetainedFrameJob of
-- src/camera_publisher.cpp: a reference to a frame that is given back exactly once.
--
-- A frame is the number of its handle; a null pointer is `none`. What the code calls in libsc132 is
-- recorded as a list of calls, newest first.
use robo_baton_4p_ros2_demo.Prelude.{
  ℕ, ◌+◌, ◌≡◌, Option, none, some, List, [], ◌∷◌, ◌==◌, if◌then◌else◌, arith,
}

-- `sc132_frame_info_t`, without the reserved words and the physical addresses, which nothing reads.
pub record FrameInfo : Type 0 where
  pub struct_size : ℕ
  pub camera_id : ℕ
  pub sequence : ℕ
  pub frame_id : ℕ
  pub timestamp_ns : ℕ
  pub y_data : Option ℕ
  pub uv_data : Option ℕ
  pub y_size : ℕ
  pub uv_size : ℕ
  pub width : ℕ
  pub height : ℕ
  pub stride : ℕ
  pub vstride : ℕ

-- `sc132_frame_info_t info{}`
unfoldable pub empty_info : FrameInfo
empty_info = record {
  struct_size = 0;
  camera_id = 0;
  sequence = 0;
  frame_id = 0;
  timestamp_ns = 0;
  y_data = none;
  uv_data = none;
  y_size = 0;
  uv_size = 0;
  width = 0;
  height = 0;
  stride = 0;
  vstride = 0;
}

-- `sc132_frame_set_item_t`, with the fields that the consumer reads.
pub record FrameSetItem : Type 0 where
  pub frame : Option ℕ
  pub camera_id : ℕ

-- `sc132_frame_set_t`, with the fields that the consumer reads.
pub record FrameSet : Type 0 where
  pub struct_size : ℕ
  pub camera_count : ℕ
  pub items : List FrameSetItem

-- `sc132_frame_set_config_t`, without the callback and its user data.
pub record FrameSetConfig : Type 0 where
  pub camera_count : ℕ
  pub width : ℕ
  pub height : ℕ
  pub timeout_ms : ℕ
  pub max_skew_ns : ℕ

-- The calls of libsc132 that the program makes.
pub data Call : Type 0 where
  set_fps set_output_rotation : ℕ → Call
  start_frame_set : FrameSetConfig → ℕ → Call
  frame_retain frame_release : ℕ → Call
  request_stop stop : Call

pub record RetainedFrameJob : Type 0 where
  pub frame : Option ℕ
  pub info : FrameInfo

unfoldable pub empty_job : RetainedFrameJob
unfolding empty_info
empty_job = record { frame = none; info = empty_info }

abbrev pub release_frame : Option ℕ → List Call → List Call
release_frame none calls = calls
release_frame (some f) calls = frame_release f ∷ calls

-- Reset, which the destructor calls too.
unfoldable pub reset : RetainedFrameJob → List Call → RetainedFrameJob × List Call
reset job calls = (record job { frame = none }, release_frame job.frame calls)

-- MoveFrom: the target takes the reference, and the source is left with nothing to give back.
unfoldable pub move_from : RetainedFrameJob → RetainedFrameJob × RetainedFrameJob
unfolding empty_job
move_from other = (other, empty_job)

-- `target = std::move(other)` between two jobs: the new target, what is left of the source, and the
-- calls.
unfoldable pub move_assign :
    RetainedFrameJob
    → RetainedFrameJob
    → List Call
    → RetainedFrameJob × RetainedFrameJob × List Call
unfolding reset move_from
move_assign target other calls =
    let (_, calls') = reset target calls in
    let (moved, left) = move_from other in (moved, left, calls')

-- How often a job holds a frame, and how often a list of calls retains and gives it back.
abbrev pub holds : ℕ → Option ℕ → ℕ
holds f none = 0
holds f (some g) = if f == g then 1 else 0

abbrev pub retains : ℕ → List Call → ℕ
retains f [] = 0
retains f (frame_retain g ∷ calls) = (if f == g then 1 else 0) + retains f calls
retains f (_ ∷ calls) = retains f calls

abbrev pub releases : ℕ → List Call → ℕ
releases f [] = 0
releases f (frame_release g ∷ calls) = (if f == g then 1 else 0) + releases f calls
releases f (_ ∷ calls) = releases f calls

-- A move between two jobs neither loses nor doubles a reference: what the two held before is what
-- they hold after, with what was given back meanwhile; and the source holds nothing any more.
pub move_assign-conserves :
    (target other : RetainedFrameJob) (calls : List Call) (f : ℕ)
    → let (target', other', calls') = move_assign target other calls in
      (holds f target'.frame + holds f other'.frame + releases f calls'
        ≡ holds f target.frame + holds f other.frame + releases f calls)
      × (other'.frame ≡ none)
      × (retains f calls' ≡ retains f calls)
unfolding move_assign
move_assign-conserves target other calls f = ground arith
