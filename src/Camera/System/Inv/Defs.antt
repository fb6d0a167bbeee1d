-- ===== src/Camera/System/Inv/Defs.antt =====
-- The invariant of the core's flags and lanes.
use robo_baton_4p_ros2_demo.Prelude.{
  ℕ, ◌≤◌, ◌≡◌, Bool, true, false, ◌&&◌, ◌||◌, not, Option, none, some,
}
use robo_baton_4p_ros2_demo.Camera.Queue.{FrameQueue, is_empty}
use robo_baton_4p_ros2_demo.Camera.Core.{
  CameraCoreConfig, Worker, absent, exited, joined, Core, camera_enabled,
}
use robo_baton_4p_ros2_demo.Camera.Callback.{Callback, outside, at_push, in_wait}
use robo_baton_4p_ros2_demo.Camera.System.{Owner, idle, joining}

abbrev pub has_queue : Option FrameQueue → Bool
has_queue none = false
has_queue (some q) = true

-- No queue, or one that is stopped and empty.
abbrev pub is_closed : Option FrameQueue → Bool
is_closed none = true
is_closed (some q) = q.stopped && is_empty q.queue

abbrev pub is_absent : Worker → Bool
is_absent absent = true
is_absent _ = false

abbrev pub is_done : Worker → Bool
is_done absent = true
is_done exited = true
is_done joined = true
is_done _ = false

abbrev pub is_outside : Callback → Bool
is_outside outside = true
is_outside _ = false

-- The camera whose queue the callback is about to use is enabled.
abbrev pub pushes_enabled : CameraCoreConfig → Callback → Bool
pushes_enabled config (at_push job id rest seen) = camera_enabled config id
pushes_enabled config (in_wait job id rest seen) = camera_enabled config id
pushes_enabled config _ = true

abbrev pub is_joining : Owner → Bool
is_joining joining = true
is_joining idle = false

-- What one lane satisfies, given the flags of the core.
pub record LaneOk (c : Core) (active : Bool) (id : ℕ) : Type 0 where
  pub in_range :
      4 ≤ id → (is_absent (c.lanes id).worker ≡ true) × (has_queue (c.lanes id).queue ≡ false)
  pub blank :
      c.start_claimed ≡ false
      → (is_absent (c.lanes id).worker ≡ true) × (has_queue (c.lanes id).queue ≡ false)
  pub ready :
      active ≡ true → camera_enabled c.config id ≡ true → has_queue (c.lanes id).queue ≡ true
  pub working : is_absent (c.lanes id).worker ≡ false → has_queue (c.lanes id).queue ≡ true
  pub closed : c.terminal ≡ true → is_closed (c.lanes id).queue ≡ true
  pub complete : c.cleanup_complete ≡ true → is_done (c.lanes id).worker ≡ true

-- What the flags satisfy.
pub record FlagsOk (c : Core) (outside? : Bool) (joining? : Bool) : Type 0 where
  pub unclaimed :
      c.start_claimed ≡ false
      → (outside? ≡ true) × (c.bridge_accepting ≡ false) × (c.terminal ≡ false)
  pub ended : c.terminal ≡ true → c.bridge_accepting ≡ false
  pub cleaned :
      c.cleanup_complete ≡ true → (c.terminal ≡ true) × (outside? ≡ true) × (joining? ≡ false)
  pub under_way : joining? ≡ true → c.terminal ≡ true

abbrev pub active : Core → Callback → Bool
active c cb = c.bridge_accepting || not (is_outside cb)

pub record Inv (c : Core) (cb : Callback) (o : Owner) : Type 0 where
  pub flags : FlagsOk c (is_outside cb) (is_joining o)
  pub lane : (id : ℕ) → LaneOk c (active c cb) id
  pub pushing : pushes_enabled c.config cb ≡ true
