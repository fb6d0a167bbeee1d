-- ===== src/Node/Life.antt =====
-- The order in which the node starts and stops its publishers, the loop and the exit code of `main`, in
-- src/robobaton_sensors_node.cpp. What the loading of the configurations, the constructors and the
-- Start of the publishers do is an argument (`NodeReplies`).
use robo_baton_4p_ros2_demo.Prelude.{
  ℕ, zero, suc, ◌+◌, ◌<◌, ◌≡◌, ◌↔◌, Bool, true, false, ◌&&◌, ◌||◌, not, Option, none, some, List,
  [], ◌∷◌, ◌++◌, if◌then◌else◌, Exception, arith,
}

-- What happens to the two publishers; `stopped` is Stop with the destruction that follows.
pub data Event : Type 0 where
  imu_made imu_started imu_stopped camera_made camera_started camera_stopped : Event

-- What is thrown: by the loading of the settings, by the loading of each configuration with the
-- constructor of its publisher, and by the publisher's Start.
pub record NodeReplies : Type 0 where
  pub settings_error : Option Exception
  pub imu_made_error : Option Exception
  pub imu_start_error : Option Exception
  pub camera_made_error : Option Exception
  pub camera_start_error : Option Exception

-- One publisher, if it is enabled: the events in their order, and what is thrown.
abbrev pub start_publisher :
    Bool → Event → Event → Option Exception → Option Exception → List Event × Option Exception
start_publisher false made started made_error start_error = ([], none)
start_publisher true made started (some e) start_error = ([], some e)
start_publisher true made started none (some e) = (made ∷ [], some e)
start_publisher true made started none none = (made ∷ started ∷ [], none)

-- The statement after one that may throw.
abbrev pub and_then :
    List Event × Option Exception → List Event × Option Exception → List Event × Option Exception
and_then (events, some e) rest = (events, some e)
and_then (events, none) (more, thrown) = (events ++ more, thrown)

-- StartEnabledPublishers: the IMU first.
unfoldable pub start_enabled_publishers : Bool → Bool → NodeReplies → List Event × Option Exception
start_enabled_publishers enable_imu enable_camera r =
    and_then (start_publisher enable_imu imu_made imu_started r.imu_made_error r.imu_start_error) (
      start_publisher enable_camera camera_made camera_started r.camera_made_error
        r.camera_start_error)

-- The constructor of the node.
unfoldable pub construct_node : Bool → Bool → NodeReplies → List Event × Option Exception
unfolding start_enabled_publishers
construct_node enable_imu enable_camera r =
    and_then ([], r.settings_error) (start_enabled_publishers enable_imu enable_camera r)

-- How often a publisher was made, and how often it was stopped.
unfoldable pub imus_made : List Event → ℕ
imus_made [] = 0
imus_made (imu_made ∷ rest) = 1 + imus_made rest
imus_made (_ ∷ rest) = imus_made rest

unfoldable pub cameras_made : List Event → ℕ
cameras_made [] = 0
cameras_made (camera_made ∷ rest) = 1 + cameras_made rest
cameras_made (_ ∷ rest) = cameras_made rest

abbrev stop_if : ℕ → Event → List Event
stop_if zero stopped = []
stop_if (suc n) stopped = stopped ∷ []

-- StopPublishers: the camera first.
unfoldable pub stop_publishers : List Event → List Event
unfolding cameras_made imus_made
stop_publishers events =
    stop_if (cameras_made events) camera_stopped ++ stop_if (imus_made events) imu_stopped

-- A constructor that throws destroys the members, the last one first: the IMU's publisher, then the
-- camera's.
unfoldable pub unwind : List Event → List Event
unfolding cameras_made imus_made
unwind events =
    stop_if (imus_made events) imu_stopped ++ stop_if (cameras_made events) camera_stopped

abbrev pub end_of : List Event × Option Exception → List Event
end_of (events, some e) = events ++ unwind events
end_of (events, none) = events ++ stop_publishers events

-- One check of the condition of the executor's loop: whether a signal asked for a stop, whether rclcpp
-- was shut down, and whether a failure of the process was recorded. The first of them ends the loop;
-- otherwise `spin_once` returns or throws.
pub record Check : Type 0 where
  pub stop_requested : Bool
  pub shut_down : Bool
  pub process_failed : Bool
  pub spin_throws : Bool

-- How the loop ends: with a failure recorded or not, or by an exception of `spin_once`.
pub data LoopEnd : Type 0 where
  left : Bool → LoopEnd
  thrown_out : LoopEnd

-- The rounds that the loop makes, and its end. The check that follows the list, if it is reached, ends
-- the loop: `failed` is whether it finds a failure recorded.
unfoldable pub run_executor : List Check → Bool → ℕ × LoopEnd
run_executor [] failed = (0, left failed)
run_executor (c ∷ rest) failed =
    let later = run_executor rest failed in
    if c.stop_requested || c.shut_down || c.process_failed
    then (0, left c.process_failed)
    else if c.spin_throws
    then (1, thrown_out)
    else (1 + later.0, later.1)

-- The exit code, with whether a failure was recorded after the loop, by the stops of the publishers.
abbrev pub code_after : LoopEnd → Bool → ℕ
code_after thrown_out failed_later = 1
code_after (left failed) failed_later = if failed || failed_later then 1 else 0

abbrev pub exit_code_of : List Event × Option Exception → List Check → Bool → Bool → ℕ
exit_code_of (events, some e) checks failed failed_later = 1
exit_code_of (events, none) checks failed failed_later =
    code_after (run_executor checks failed).1 failed_later

-- `main` past its `--version`: all that happens to the publishers, and the exit code.
unfoldable pub main : Bool → Bool → NodeReplies → List Check → Bool → Bool → List Event × ℕ
unfolding construct_node unwind stop_publishers run_executor
main enable_imu enable_camera r checks failed failed_later =
    let started = construct_node enable_imu enable_camera r in
    (end_of started, exit_code_of started checks failed failed_later)

unfoldable pub imus_stopped : List Event → ℕ
imus_stopped [] = 0
imus_stopped (imu_stopped ∷ rest) = 1 + imus_stopped rest
imus_stopped (_ ∷ rest) = imus_stopped rest

unfoldable pub cameras_stopped : List Event → ℕ
cameras_stopped [] = 0
cameras_stopped (camera_stopped ∷ rest) = 1 + cameras_stopped rest
cameras_stopped (_ ∷ rest) = cameras_stopped rest

abbrev is_stop : Event → Bool
is_stop imu_stopped = true
is_stop camera_stopped = true
is_stop _ = false

unfoldable all_stops : List Event → Bool
all_stops [] = true
all_stops (e ∷ rest) = is_stop e && all_stops rest

-- Nothing but stops after the first stop.
unfoldable pub stops_last : List Event → Bool
unfolding all_stops
stops_last [] = true
stops_last (e ∷ rest) = if is_stop e then all_stops rest else stops_last rest

-- The checks before the first one that ends the loop, and that one.
unfoldable pub first_end : List Check → ℕ × Option Check
first_end [] = (0, none)
first_end (c ∷ rest) =
    let later = first_end rest in
    if c.stop_requested || c.shut_down || c.process_failed || c.spin_throws
    then (0, some c)
    else (1 + later.0, later.1)

-- Neither a failure nor an exception; the check that follows the list has a failure as `failed` says.
abbrev pub is_clean : Bool → Option Check → Bool
is_clean failed none = not failed
is_clean failed (some c) =
    if c.stop_requested || c.shut_down || c.process_failed then not c.process_failed else false

run_executor-first_end :
    (checks : List Check) (failed failed_later : Bool)
    → (code_after (run_executor checks failed).1 failed_later ≡ 0)
      ↔ ((is_clean failed (first_end checks).1 ≡ true) × (failed_later ≡ false))
unfolding run_executor first_end
run_executor-first_end [] failed failed_later = ground arith
run_executor-first_end (c ∷ rest) failed failed_later =
    ground (arith, run_executor-first_end rest failed failed_later)

code_iff :
    (started : List Event × Option Exception) (checks : List Check) (failed failed_later : Bool)
    → (exit_code_of started checks failed failed_later ≡ 0) ↔ (
        (started.1 ≡ none) × (is_clean failed (first_end checks).1 ≡ true) × (failed_later ≡ false))
code_iff (events, some e) checks failed failed_later = ground arith
code_iff (events, none) checks failed failed_later =
    ground (arith, run_executor-first_end checks failed failed_later)

stopped_once :
    (enable_imu enable_camera : Bool) (r : NodeReplies)
    → let events = end_of (construct_node enable_imu enable_camera r) in
      (imus_stopped events ≡ imus_made events)
      × (cameras_stopped events ≡ cameras_made events)
      × (imus_made events < 2)
      × (cameras_made events < 2)
      × (stops_last events ≡ true)
unfolding construct_node start_enabled_publishers unwind stop_publishers imus_made cameras_made
    imus_stopped cameras_stopped stops_last all_stops
stopped_once false false r = ground arith
stopped_once false true r = ground arith
stopped_once true false r = ground arith
stopped_once true true r = ground arith

-- Whatever the parameters enable and whatever is thrown, each publisher that was made is stopped
-- exactly once, none is made twice, and once one is stopped none is made or started any more; and the
-- exit code is 0 exactly when the constructor of the node threw nothing, the first check or round that
-- ends the executor's loop brought neither a failure nor an exception, and no failure was recorded
-- later. The loop is left by a check of the list, or by the one that follows it.
pub publishers_stopped :
    (enable_imu enable_camera : Bool) (r : NodeReplies) (checks : List Check)
    (failed failed_later : Bool)
    → let (events, code) = main enable_imu enable_camera r checks failed failed_later in
      (imus_stopped events ≡ imus_made events)
      × (cameras_stopped events ≡ cameras_made events)
      × (imus_made events < 2)
      × (cameras_made events < 2)
      × (stops_last events ≡ true)
      × ((code ≡ 0) ↔ (
          ((construct_node enable_imu enable_camera r).1 ≡ none)
          × (is_clean failed (first_end checks).1 ≡ true)
          × (failed_later ≡ false)))
unfolding main
publishers_stopped enable_imu enable_camera r checks failed failed_later =
    let (imus, cameras, imu_once, camera_once, last) = stopped_once enable_imu enable_camera r in
    (
      imus,
      cameras,
      imu_once,
      camera_once,
      last,
      code_iff (construct_node enable_imu enable_camera r) checks failed failed_later,
    )
