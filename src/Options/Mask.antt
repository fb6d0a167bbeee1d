-- ===== src/Options/Mask.antt =====
-- The camera mask: counting and membership agree.
use robo_baton_4p_ros2_demo.Prelude.{
  ℕ, ◌+◌, ◌%◌, ◌<◌, ◌≡◌, refl, Bool, true, ℤ, pos, negsuc, arith, if◌then◌else◌,
}
use robo_baton_4p_ros2_demo.Options.{max_channels, camera_mask_pop_count, camera_mask_contains}

abbrev one_if : Bool → ℕ
one_if b = if b then 1 else 0

-- CameraMaskPopCount counts the cameras that CameraMaskContains admits, and neither looks at a bit
-- above the fourth: the count is that of the mask's remainder modulo 16.
pub pop_count-contains :
    (mask : ℕ)
    → (camera_mask_pop_count mask
        ≡ one_if (camera_mask_contains mask (pos 0))
          + one_if (camera_mask_contains mask (pos 1))
          + one_if (camera_mask_contains mask (pos 2))
          + one_if (camera_mask_contains mask (pos 3)))
      × (camera_mask_pop_count mask ≡ camera_mask_pop_count (mask % 16))
unfolding camera_mask_pop_count camera_mask_contains
pop_count-contains mask = (ground arith, ground arith)

-- A camera number that is negative or at least 4 is in no mask.
pub contains_range :
    (mask : ℕ) (id : ℤ)
    → camera_mask_contains mask id ≡ true
    → (n : ℕ) × (id ≡ pos n) × (n < max_channels)
unfolding camera_mask_contains
contains_range mask (pos n) h = (n, refl, ground arith)
contains_range mask (negsuc n) h = absurd (ground arith)
