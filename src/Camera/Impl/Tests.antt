-- ===== src/Camera/Impl/Tests.antt =====
-- The publisher of one camera, started and stopped.
use text.Mathlib.Text.{◌==◌ as str_eq}
use text.Mathlib.TextEquality.{eq_iff}
use text.Mathlib.TextPositions.{eq_refl}
use robo_baton_4p_ros2_demo.Prelude.{
  ℕ, zero, suc, ◌<◌, ◌≡◌, refl, inl, inr, true, false, Option, none, some, pos, ok, if◌then◌else◌,
  String, arith,
}
use robo_baton_4p_ros2_demo.Timestamp.{SensorTimestampMapperSnapshot}
use robo_baton_4p_ros2_demo.Options.{
  Environment, default_options, validate_camera_options, configure_sc132_trigger_mode,
  configure_sc132_sensor_profile, camera_mask_pop_count, internal_rotate_degrees,
  sc132_output_width, sc132_output_height,
}
use robo_baton_4p_ros2_demo.Options.Profile.{SetenvLaws}
use robo_baton_4p_ros2_demo.Camera.Queue.{pop, new_queue, close_admission, stop_and_detach}
use robo_baton_4p_ros2_demo.Camera.Core.{
  max_cameras, exited, new_core, set_worker, validate_config, close_admission_and_request_stop,
  close_queue,
}
use robo_baton_4p_ros2_demo.Camera.Lifecycle.{
  StartReplies, start, start_producer, initialize_queues, start_workers, cleanup_begin,
  detach_queues, detach_queue,
}
use robo_baton_4p_ros2_demo.Camera.Callback.{worker_pop, pop_on, after_pop}
use robo_baton_4p_ros2_demo.Camera.System.{System, initial, IsDone, pops, Step}
use robo_baton_4p_ros2_demo.Camera.Publish.{Config, k_block, construct, core_config}
use robo_baton_4p_ros2_demo.Camera.Impl.{
  Publisher, at_rest, empty_snapshot, returned, begin_start, begin_stop, end_stop, Comes, made,
  moved, calls_start, calls_stop, thread_moves,
}
use robo_baton_4p_ros2_demo.Camera.Impl.Released.{
  Stops, after_joins, LeavesNothing, stop-LeavesNothing,
}
use robo_baton_4p_ros2_demo.Camera.Impl.Starts.{IsGood, HasStarted, returned_start, start_returns}

-- An environment as a function; `setenv` always succeeds.
abbrev variables : Environment
variables = record {
  Env = String → Option String;
  getenv = λ name env. env name;
  setenv = λ name value env. (pos 0, λ other. if str_eq other name then some value else env other);
}

variables-SetenvLaws : SetenvLaws variables
variables-SetenvLaws = record {
  sets = λ name value env e. rw (eq_refl name);
  keeps = λ name value other env e ne. ground (arith, eq_iff other name);
}

abbrev mapper : SensorTimestampMapperSnapshot
mapper = record {
  realtime_start_ns = 1000;
  monotonic_raw_start_ns = 900;
  realtime_minus_monotonic_raw_ns = pos 100;
}

-- The last camera alone.
abbrev config : Config
config = record {
  timestamp_mapper = some mapper;
  options = record default_options { camera_mask = 8 };
  queue_capacity = 4;
  queue_policy = k_block;
  publish_camera_info = true;
  image_encoding = "nv12";
  publish_compressed_image = true;
  compressed_jpeg_quality = pos 80;
  frame_id_prefix = "robobaton_cam";
  rate_metrics_enabled = true;
  rate_log_period_ms = 1000;
  rate_run_id = "run";
}

abbrev replies : StartReplies
replies = record {
  thread_throws_at = none;
  set_fps_status = pos 0;
  set_output_rotation_status = pos 0;
  start_frame_set_status = pos 0;
}

replies-IsGood : IsGood replies
replies-IsGood = record { threads = refl; fps = refl; rotation = refl; frame_set = refl }

abbrev unset : String → Option String
unset name = none

abbrev with_mode : String → Option String
with_mode name = if str_eq name "SC132_TRIGGER_MODE" then some "software_gpio" else none

abbrev with_both : String → Option String
with_both name =
    if str_eq name "SC132_SENSOR_PROFILE"
    then some "sc132gs_linear_1088x1280_raw10_30fps_1lane"
    else with_mode name

abbrev new_publisher : Publisher (String → Option String)
new_publisher = record {
  system = initial;
  env = unset;
  is_started = false;
  has_timer = false;
  previous_snapshots = λ id. empty_snapshot;
  failure_recorded = false;
  phase = at_rest;
}

accepted : validate_camera_options config.options ≡ ok tt
unfolding validate_camera_options default_options
accepted = refl

mode_set : configure_sc132_trigger_mode variables config.options unset ≡ ok with_mode
unfolding configure_sc132_trigger_mode default_options
mode_set = refl

profile_set : configure_sc132_sensor_profile variables config.options with_mode ≡ ok with_both
unfolding configure_sc132_sensor_profile default_options camera_mask_pop_count
profile_set = refl

constructed : construct false config ≡ ok mapper
unfolding construct
constructed = refl

fresh : (initial.core.start_claimed ≡ false) × (initial.core.terminal ≡ false)
unfolding initial new_core
fresh = (refl, refl)

start_returns_example : (begin_start variables config replies new_publisher).1 ≡ returned
start_returns_example =
    start_returns variables config replies mapper new_publisher with_mode with_both constructed
      accepted mode_set profile_set fresh replies-IsGood

abbrev running : Publisher (String → Option String)
running = (begin_start variables config replies new_publisher).0

start_is_done : (begin_start variables config replies new_publisher).1 ≡ returned
unfolding begin_stop begin_start validate_camera_options default_options
    configure_sc132_trigger_mode configure_sc132_sensor_profile camera_mask_pop_count core_config
    start start_producer validate_config initial new_core initialize_queues start_workers
    cleanup_begin detach_queues detach_queue close_admission_and_request_stop
    internal_rotate_degrees sc132_output_width sc132_output_height close_queue worker_pop pop_on
    after_pop pop new_queue close_admission stop_and_detach
start_is_done = refl

returned_start_example :
    (validate_camera_options config.options ≡ ok tt)
    × HasStarted variables config new_publisher running
returned_start_example =
    returned_start variables config replies variables-SetenvLaws new_publisher start_is_done

-- Stop waits for the worker, which finds its queue closed.
abbrev stopping : Publisher (String → Option String)
stopping = (begin_stop running).0

abbrev after_exit : System
after_exit = record stopping.system { core = set_worker stopping.system.core 3 exited }

worker_leaves : Step stopping.system after_exit
unfolding begin_stop begin_start validate_camera_options default_options
    configure_sc132_trigger_mode configure_sc132_sensor_profile camera_mask_pop_count core_config
    start start_producer validate_config initial new_core initialize_queues start_workers
    cleanup_begin detach_queues detach_queue close_admission_and_request_stop
    internal_rotate_degrees sc132_output_width sc132_output_height close_queue worker_pop pop_on
    after_pop pop new_queue close_admission stop_and_detach
worker_leaves = pops 3 (set_worker stopping.system.core 3 exited) refl refl

rests : running.phase ≡ at_rest
unfolding begin_stop begin_start validate_camera_options default_options
    configure_sc132_trigger_mode configure_sc132_sensor_profile camera_mask_pop_count core_config
    start start_producer validate_config initial new_core initialize_queues start_workers
    cleanup_begin detach_queues detach_queue close_admission_and_request_stop
    internal_rotate_degrees sc132_output_width sc132_output_height close_queue worker_pop pop_on
    after_pop pop new_queue close_admission stop_and_detach
rests = refl

came : Comes variables config (record stopping { system = after_exit })
unfolding initial worker_leaves
came =
    moved (moved (moved (made unset) (calls_start replies refl)) (calls_stop rests))
      (thread_moves after_exit worker_leaves refl)

abbrev joined_all : Publisher (String → Option String)
joined_all = record stopping { system = after_exit }

all-IsDone : (id : ℕ) → id < max_cameras → IsDone (joined_all.system.core.lanes id).worker
unfolding begin_stop begin_start validate_camera_options default_options
    configure_sc132_trigger_mode configure_sc132_sensor_profile camera_mask_pop_count core_config
    start start_producer validate_config initial new_core initialize_queues start_workers
    cleanup_begin detach_queues detach_queue close_admission_and_request_stop
    internal_rotate_degrees sc132_output_width sc132_output_height close_queue worker_pop pop_on
    after_pop pop new_queue close_admission stop_and_detach
all-IsDone zero h = inl refl
all-IsDone (suc zero) h = inl refl
all-IsDone (suc (suc zero)) h = inl refl
all-IsDone (suc (suc (suc zero))) h = inr (inl refl)
all-IsDone (suc (suc (suc (suc id)))) h = absurd (omega (arith, h))

ends : Stops joined_all (end_stop false joined_all).0
unfolding begin_stop begin_start validate_camera_options default_options
    configure_sc132_trigger_mode configure_sc132_sensor_profile camera_mask_pop_count core_config
    start start_producer validate_config initial new_core initialize_queues start_workers
    cleanup_begin detach_queues detach_queue close_admission_and_request_stop
    internal_rotate_degrees sc132_output_width sc132_output_height close_queue worker_pop pop_on
    after_pop pop new_queue close_admission stop_and_detach
ends = after_joins refl all-IsDone refl

stop-LeavesNothing_example : LeavesNothing (end_stop false joined_all).0
stop-LeavesNothing_example = stop-LeavesNothing variables config came ends
