-- ===== src/Options/Valid.antt =====
-- ValidateCameraOptions, and the geometry of what it accepts.
use text.Mathlib.TextEquality.{eq_iff}
use robo_baton_4p_ros2_demo.Prelude.{
  ℕ, ◌+◌, ◌*◌, ◌/◌, ◌<◌, ◌≡◌, ◌↔◌, ◌%◌, ◌==◌, if◌then◌else◌, ◌⊎◌, true, ℤ, pos, negsuc, ok, arith,
}
use robo_baton_4p_ros2_demo.Options.{
  Options, camera_mask_pop_count, internal_rotate_degrees, sc132_output_width, sc132_output_height,
  validate_camera_options, is_supported_mask, is_supported_fps, is_supported_rotation,
}

-- The frame rates of the cameras that README.md names.
abbrev pub IsFrameRate : ℤ → Type 0
IsFrameRate fps =
    (fps ≡ pos 25) ⊎ ((fps ≡ pos 30) ⊎ ((fps ≡ pos 40) ⊎ ((fps ≡ pos 50) ⊎ (fps ≡ pos 60))))

-- What the documents promise of accepted options: one camera or all four, one of five frame rates, a
-- quarter turn, half turns at 30 frames only, positive limits, and one of two trigger modes.
pub record IsSupported (o : Options) : Type 0 where
  pub mask_small : o.camera_mask < 16
  pub cameras :
      (camera_mask_pop_count o.camera_mask ≡ 1) ⊎ (camera_mask_pop_count o.camera_mask ≡ 4)
  pub fps : IsFrameRate o.fps
  pub rotation : (k : ℕ) × (k < 4) × (o.rotate_degrees ≡ pos (90 * k))
  pub half_turn : o.rotate_degrees ≡ pos 180 → o.fps ≡ pos 30
  pub timeout : 0 < o.frame_set_timeout_ms
  pub skew : 0 < o.frame_set_max_skew_ns
  pub trigger : (o.trigger_mode ≡ "software_gpio") ⊎ (o.trigger_mode ≡ "none")

mask_cases :
    (m : ℕ)
    → is_supported_mask m ≡ true
    → (m < 16) × ((camera_mask_pop_count m ≡ 1) ⊎ (camera_mask_pop_count m ≡ 4))
unfolding camera_mask_pop_count
mask_cases m h = ground arith

mask_of_count :
    (m : ℕ)
    → m < 16
    → (camera_mask_pop_count m ≡ 1) ⊎ (camera_mask_pop_count m ≡ 4)
    → is_supported_mask m ≡ true
unfolding camera_mask_pop_count
mask_of_count m h c = ground arith

rotation_cases : (r : ℤ) → is_supported_rotation r ≡ true → (k : ℕ) × (k < 4) × (r ≡ pos (90 * k))
rotation_cases (pos n) h = (n / 90, ground arith, ground arith)
rotation_cases (negsuc n) h = absurd (ground arith)

rotation_of : (r : ℤ) (k : ℕ) → k < 4 → r ≡ pos (90 * k) → is_supported_rotation r ≡ true
rotation_of r k h e = ground arith

IsFrameRate-cases : (fps : ℤ) → is_supported_fps fps ≡ true → IsFrameRate fps
IsFrameRate-cases fps h = ground arith

frame_rate_of : (fps : ℤ) → IsFrameRate fps → is_supported_fps fps ≡ true
frame_rate_of fps h = ground arith

accepts : (o : Options) → validate_camera_options o ≡ ok tt → IsSupported o
unfolding validate_camera_options
accepts o h = record {
  mask_small = mask.0;
  cameras = mask.1;
  fps = IsFrameRate-cases o.fps (ground arith);
  rotation = rotation_cases o.rotate_degrees (ground arith);
  half_turn = ground arith;
  timeout = ground arith;
  skew = ground arith;
  trigger = ground (arith, eq_iff o.trigger_mode "software_gpio", eq_iff o.trigger_mode "none");
}
  where
    mask :
        (o.camera_mask < 16)
        × ((camera_mask_pop_count o.camera_mask ≡ 1) ⊎ (camera_mask_pop_count o.camera_mask ≡ 4))
    mask = mask_cases o.camera_mask (ground arith)

accepts_of : (o : Options) → IsSupported o → validate_camera_options o ≡ ok tt
unfolding validate_camera_options
accepts_of o h = ground (
  arith,
  mask_of_count o.camera_mask h.mask_small h.cameras,
  frame_rate_of o.fps h.fps,
  rotation_of o.rotate_degrees h.rotation.0 h.rotation.1 h.rotation.2,
  eq_iff o.trigger_mode "software_gpio",
  eq_iff o.trigger_mode "none",
)

-- ValidateCameraOptions accepts exactly the options with one camera or all four; 25, 30, 40, 50 or 60
-- frames per second; a rotation by 0, 90, 180 or 270 degrees, and by 180 at 30 frames only; a positive
-- timeout and skew; and the trigger mode software_gpio or none.
pub validate_iff : (o : Options) → (validate_camera_options o ≡ ok tt) ↔ IsSupported o
validate_iff o = (accepts o, accepts_of o)

-- Accepted options rotate the sensor by a quarter turn more than the user asked for, modulo a full
-- turn, and give the native 1280 x 1088 canvas, or the same with its sides swapped exactly when the
-- user asks for a quarter or three quarters.
pub output_geometry :
    (o : Options)
    → validate_camera_options o ≡ ok tt
    → (k : ℕ) × (k < 4)
      × (o.rotate_degrees ≡ pos (90 * k))
      × (internal_rotate_degrees o ≡ pos (90 * ((k + 1) % 4)))
      × (sc132_output_width o ≡ (if k % 2 == 0 then 1280 else 1088))
      × (sc132_output_height o ≡ (if k % 2 == 0 then 1088 else 1280))
unfolding sc132_output_width sc132_output_height
output_geometry o h =
    let (k, small, e) = (accepts o h).rotation in
    (k, small, e, ground arith, ground arith, ground arith)
