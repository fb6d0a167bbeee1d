-- ===== src/Options.antt =====
-- src/cam_demo_common.cpp, src/cam_demo_config.cpp and their headers: the camera options, their
-- validation, the camera mask, the geometry of the rotated output, and the process environment that
-- selects libsc132's trigger mode and sensor profile.
--
-- A mask is a number and its bit k is `mask / 2 ^ k % 2`. An `int` is an integer. The process
-- environment is a state `Env` with the C library's `getenv` and `setenv` as parameters.
pub mod Mask
pub mod Valid
pub mod Profile
mod Tests
use text.Mathlib.Text.{◌==◌ as str_eq}
use robo_baton_4p_ros2_demo.Prelude.{
  ℕ, zero, suc, ◌+◌, ◌-◌, ◌*◌, ◌/◌, ◌%◌, ◌^◌, Bool, true, false, ◌&&◌, ◌||◌, not, Option, none,
  some, ltb, leb, ◌==◌, if◌then◌else◌, ℤ, pos, negsuc, pos_part, ltb_ℤ, leb_ℤ, ◌==ℤ◌, neg, Result,
  ok, throw, invalid_argument, runtime_error, throw_if, ◌>>=◌, ◌>>◌, String,
}

abbrev pub max_channels : ℕ
max_channels = 4

abbrev pub sensor_input_width : ℕ
sensor_input_width = 1088

abbrev pub sensor_input_height : ℕ
sensor_input_height = 1280

abbrev pub mount_rotate_degrees : ℕ
mount_rotate_degrees = 90

abbrev pub default_camera_mask : ℕ
default_camera_mask = 2 ^ max_channels - 1

abbrev pub default_frame_set_max_skew_ns : ℕ
default_frame_set_max_skew_ns = 10000000

pub record Options : Type 0 where
  pub camera_mask : ℕ
  pub fps : ℤ
  pub rotate_degrees : ℤ
  pub frame_set_max_skew_ns : ℕ
  pub frame_set_timeout_ms : ℕ
  pub trigger_mode : String

unfoldable pub default_options : Options
default_options = record {
  camera_mask = default_camera_mask;
  fps = pos 30;
  rotate_degrees = pos 0;
  frame_set_max_skew_ns = default_frame_set_max_skew_ns;
  frame_set_timeout_ms = 100;
  trigger_mode = "software_gpio";
}

-- `(mask & (1U << id)) != 0`
abbrev pub test_bit : ℕ → ℕ → Bool
test_bit mask id = not (mask / 2 ^ id % 2 == 0)

-- The loop of CameraMaskPopCount, with the rounds left.
pop_count_from : ℕ → ℕ → ℕ → ℕ → ℕ
pop_count_from zero camera_id mask count = count
pop_count_from (suc rounds) camera_id mask count =
    pop_count_from rounds (camera_id + 1) mask
      (if test_bit mask camera_id then count + 1 else count)

unfoldable pub camera_mask_pop_count : ℕ → ℕ
unfolding pop_count_from
camera_mask_pop_count mask = pop_count_from max_channels 0 mask 0

unfoldable pub camera_mask_contains : ℕ → ℤ → Bool
camera_mask_contains mask camera_id =
    if ltb_ℤ camera_id (pos 0) || leb_ℤ (pos max_channels) camera_id
    then false
    else test_bit mask (pos_part camera_id)

-- `%` on int: the remainder has the sign of the dividend.
abbrev pub rem_int : ℤ → ℕ → ℤ
rem_int (pos n) m = pos (n % m)
rem_int (negsuc n) m = neg (pos (suc n % m))

-- a + n, for a number n.
abbrev pub add_int : ℤ → ℕ → ℤ
add_int (pos a) n = pos (a + n)
add_int (negsuc a) n = if ltb a n then pos (n - suc a) else negsuc (a - n)

unfoldable pub internal_rotate_degrees : Options → ℤ
internal_rotate_degrees options = rem_int (add_int options.rotate_degrees mount_rotate_degrees) 360

abbrev is_quarter_turn : ℤ → Bool
is_quarter_turn rotation = rotation ==ℤ pos 90 || rotation ==ℤ pos 270

unfoldable pub sc132_output_width : Options → ℕ
unfolding internal_rotate_degrees
sc132_output_width options =
    if is_quarter_turn (internal_rotate_degrees options)
    then sensor_input_height
    else sensor_input_width

unfoldable pub sc132_output_height : Options → ℕ
unfolding internal_rotate_degrees
sc132_output_height options =
    if is_quarter_turn (internal_rotate_degrees options)
    then sensor_input_width
    else sensor_input_height

-- The labels of the three switches of ValidateCameraOptions.
abbrev pub is_supported_mask : ℕ → Bool
is_supported_mask m = m == 0x1 || m == 0x2 || m == 0x4 || m == 0x8 || m == 0xf

abbrev pub is_supported_fps : ℤ → Bool
is_supported_fps fps =
    fps ==ℤ pos 25 || fps ==ℤ pos 30 || fps ==ℤ pos 40 || fps ==ℤ pos 50 || fps ==ℤ pos 60

abbrev pub is_supported_rotation : ℤ → Bool
is_supported_rotation r = r ==ℤ pos 0 || r ==ℤ pos 90 || r ==ℤ pos 180 || r ==ℤ pos 270

unfoldable pub validate_camera_options : Options → Result (Unit {0})
validate_camera_options options = do
  throw_if (not (is_supported_mask options.camera_mask))
      (invalid_argument "camera.camera_mask supports only 1, 2, 4, 8, or 15")
  throw_if (not (is_supported_fps options.fps))
      (invalid_argument "camera.fps must be 25, 30, 40, 50, or 60")
  throw_if (not (is_supported_rotation options.rotate_degrees))
      (invalid_argument "camera.rotate_degrees must be 0, 90, 180, or 270")
  throw_if (options.rotate_degrees ==ℤ pos 180 && not (options.fps ==ℤ pos 30))
      (invalid_argument "camera.rotate_degrees=180 is supported only at 30fps")
  throw_if (options.frame_set_timeout_ms == 0 || options.frame_set_max_skew_ns == 0)
      (invalid_argument "camera frame-set timeout and max skew must be positive")
  throw_if
      (not (str_eq options.trigger_mode "software_gpio")
        && not (str_eq options.trigger_mode "none"))
      (invalid_argument "camera.trigger_mode must be software_gpio or none")

abbrev pub sc132_sensor_profile_env : String
sc132_sensor_profile_env = "SC132_SENSOR_PROFILE"

abbrev pub sc132_trigger_mode_env : String
sc132_trigger_mode_env = "SC132_TRIGGER_MODE"

abbrev pub sc132_single_30fps_profile : String
sc132_single_30fps_profile = "sc132gs_linear_1088x1280_raw10_30fps_1lane"

abbrev pub sc132_single_60fps_profile : String
sc132_single_60fps_profile = "sc132gs_linear_1088x1280_raw10_60fps_1lane"

-- The profile that a single camera is started with.
abbrev pub single_sensor_profile : Options → String
single_sensor_profile options =
    if options.fps ==ℤ pos 30 then sc132_single_30fps_profile else sc132_single_60fps_profile

-- The C library's access to the environment: `none` from `getenv` is a null pointer, and `setenv`
-- (with overwrite 1) returns its status and the environment after it.
pub record Environment : Type 1 where
  pub Env : Type 0
  pub getenv : String → Env → Option String
  pub setenv : String → String → Env → ℤ × Env

-- `current != nullptr && current[0] != '\0'`
abbrev pub is_configured : Option String → Bool
is_configured none = false
is_configured (some profile) = not (str_eq profile "")

module _ (c : Environment) where
  open c use {Env, getenv, setenv}

  set_or_throw : String → String → String → Env → Result Env
  set_or_throw name value what env =
      let (status, env') = setenv name value env in
      if not (status ==ℤ pos 0) then throw (runtime_error what) else ok env'

  unfoldable pub configure_sc132_trigger_mode : Options → Env → Result Env
  unfolding set_or_throw
  configure_sc132_trigger_mode options env =
      set_or_throw sc132_trigger_mode_env options.trigger_mode "set SC132_TRIGGER_MODE failed" env

  unfoldable pub configure_sc132_sensor_profile : Options → Env → Result Env
  unfolding set_or_throw
  configure_sc132_sensor_profile options env =
      if is_configured (getenv sc132_sensor_profile_env env)
      then ok env
      else if not (camera_mask_pop_count options.camera_mask == 1)
      then ok env
      else set_or_throw sc132_sensor_profile_env (single_sensor_profile options)
          "set SC132_SENSOR_PROFILE failed" env
