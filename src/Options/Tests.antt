-- ===== src/Options/Tests.antt =====
-- The camera options at concrete values, and the theorems of the modules beside this one there.
use text.Mathlib.Text.{◌==◌ as str_eq}
use text.Mathlib.TextEquality.{eq_iff}
use text.Mathlib.TextPositions.{eq_refl}
use robo_baton_4p_ros2_demo.Prelude.{
  ◌<◌, ◌≡◌, refl, true, Option, none, some, pos, ok, throw, invalid_argument, arith, String,
  if◌then◌else◌,
}
use robo_baton_4p_ros2_demo.Options.{
  Options, Environment, default_options, camera_mask_pop_count, camera_mask_contains,
  validate_camera_options, sc132_sensor_profile_env, sc132_trigger_mode_env,
  sc132_single_60fps_profile,
}
use robo_baton_4p_ros2_demo.Options.Valid.{validate_iff}
use robo_baton_4p_ros2_demo.Options.Profile.{SetenvLaws}

pop_counts : (camera_mask_pop_count 0xb ≡ 3) × (camera_mask_pop_count 0xf0 ≡ 0)
unfolding camera_mask_pop_count
pop_counts = (refl, refl)

second_in_six : camera_mask_contains 6 (pos 2) ≡ true
unfolding camera_mask_contains
second_in_six = refl

-- One camera at 60 frames, turned by three quarters.
abbrev turned : Options
turned = record {
  camera_mask = 4;
  fps = pos 60;
  rotate_degrees = pos 270;
  frame_set_max_skew_ns = 10000000;
  frame_set_timeout_ms = 100;
  trigger_mode = "none";
}

turned_accepted : validate_camera_options turned ≡ ok tt
unfolding validate_camera_options
turned_accepted = refl

default_accepted : validate_camera_options default_options ≡ ok tt
unfolding validate_camera_options default_options
default_accepted = refl

half_turn_at_60 :
    validate_camera_options (record turned { rotate_degrees = pos 180 })
    ≡ throw (invalid_argument "camera.rotate_degrees=180 is supported only at 30fps")
unfolding validate_camera_options
half_turn_at_60 = refl

validate_iff_example : 0 < turned.frame_set_timeout_ms
validate_iff_example = ((validate_iff turned).0 turned_accepted).timeout

-- An environment as a function; `setenv` always succeeds.
abbrev variables : Environment
variables = record {
  Env = String → Option String;
  getenv = λ name env. env name;
  setenv = λ name value env. (pos 0, λ other. if str_eq other name then some value else env other);
}

variables-SetenvLaws : SetenvLaws variables
variables-SetenvLaws = record {
  sets = λ name value env e. rw (eq_refl name);
  keeps = λ name value other env e ne. ground (arith, eq_iff other name);
}

abbrev unset : String → Option String
unset name = none

abbrev with_profile : String → Option String
with_profile name =
    if str_eq name sc132_sensor_profile_env then some sc132_single_60fps_profile else none

-- The same with the trigger mode set.
abbrev with_both : String → Option String
with_both name =
    if str_eq name sc132_sensor_profile_env
    then some sc132_single_60fps_profile
    else if str_eq name sc132_trigger_mode_env
    then some "none"
    else none
