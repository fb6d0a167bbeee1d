-- ===== src/Camera/Publish/Accepted.antt =====
-- A configuration with accepted options is one that the core starts with.
use robo_baton_4p_ros2_demo.Prelude.{
  ℕ, sym, ◌-◌, ◌+◌, ◌*◌, ◌%◌, ◌^◌, ◌<◌, ◌≡◌, ◌⊎◌, true, false, ℤ, pos, negsuc, ok, arith, ◌==◌, not,
  ◌&&◌, refl, if◌then◌else◌, ◌↔◌,
}
use robo_baton_4p_ros2_demo.Options.{
  Options, validate_camera_options, internal_rotate_degrees, sc132_output_width,
  sc132_output_height, is_supported_mask,
}
use robo_baton_4p_ros2_demo.Timestamp.{SensorTimestampMapperSnapshot}
use robo_baton_4p_ros2_demo.Options.Valid.{IsFrameRate, validate_iff, output_geometry}
use robo_baton_4p_ros2_demo.Camera.Core.{CameraCoreConfig, validate_config, enabled_camera_count}
use robo_baton_4p_ros2_demo.Camera.Publish.{
  QueuePolicy, k_drop_newest, drops_newest, Config, core_config, construct, to_uint32,
}

fps_cast : (f : ℤ) → IsFrameRate f → (to_uint32 f < 61) × (f ≡ pos (to_uint32 f))
fps_cast (pos n) h = ground (arith, h)
fps_cast (negsuc n) h = absurd (ground (arith, h))

mask_valid : (m : ℕ) → is_supported_mask m ≡ true → (not (m == 0) && (m - m % 2 ^ 4) == 0) ≡ true
mask_valid m h = ground (arith, h)

counts :
    (c : CameraCoreConfig)
    → is_supported_mask c.camera_mask ≡ true
    → (enabled_camera_count c ≡ 1) ⊎ (enabled_camera_count c ≡ 4)
counts c h = ground (arith, h)

constructed :
    (config : Config) (mapper : SensorTimestampMapperSnapshot)
    → construct false config ≡ ok mapper
    → 0 < config.queue_capacity
unfolding construct
constructed config mapper h = ground (arith, h)

mask_ok : (o : Options) → validate_camera_options o ≡ ok tt → is_supported_mask o.camera_mask ≡ true
unfolding validate_camera_options
mask_ok o h = ground (arith, h)

positive_geometry : (o : Options) → (0 < sc132_output_width o) × (0 < sc132_output_height o)
unfolding sc132_output_width sc132_output_height
positive_geometry o = (ground arith, ground arith)

cast_pos : (r : ℤ) (n : ℕ) → r ≡ pos n → n < 2 ^ 32 → to_uint32 r ≡ n
cast_pos r n e h = ground (arith, e, h)

-- The configuration of a core for options that turn the image by `k` quarters: the sensor is mounted a
-- quarter turn further, and the native canvas of 1280 by 1088 has its sides swapped for odd `k`.
pub record IsConfigured (config : Config) (core : CameraCoreConfig) : Type 0 where
  pub turn :
      (k : ℕ) × (k < 4)
      × (config.options.rotate_degrees ≡ pos (90 * k))
      × (core.rotation ≡ 90 * ((k + 1) % 4))
      × (core.width ≡ (if k % 2 == 0 then 1280 else 1088))
      × (core.height ≡ (if k % 2 == 0 then 1088 else 1280))
  pub fps : pos core.fps ≡ config.options.fps
  pub mask : core.camera_mask ≡ config.options.camera_mask
  pub limits :
      (core.timeout_ms ≡ config.options.frame_set_timeout_ms)
      × (core.max_skew_ns ≡ config.options.frame_set_max_skew_ns)
      × (core.queue_capacity ≡ config.queue_capacity)
  pub drops : (core.drop_newest ≡ true) ↔ (config.queue_policy ≡ k_drop_newest)
  pub metrics : core.rate_metrics_enabled ≡ config.rate_metrics_enabled

drops_newest_iff : (q : QueuePolicy) → (drops_newest q ≡ true) ↔ (q ≡ k_drop_newest)
drops_newest_iff q = (λ h. ground (arith, h), λ h. ground (arith, h))

-- The configuration for accepted options.
pub core_config-IsConfigured :
    (config : Config)
    → validate_camera_options config.options ≡ ok tt
    → IsConfigured config (core_config config)
unfolding core_config
core_config-IsConfigured config accepted =
    let o = config.options in
    let (k, small, asked, turned, wide, high) = output_geometry o accepted in
    record {
      turn = (
        k,
        small,
        asked,
        cast_pos (internal_rotate_degrees o) (90 * ((k + 1) % 4)) turned (omega arith),
        wide,
        high,
      );
      fps = sym ((fps_cast o.fps ((validate_iff o).0 accepted).fps).1);
      mask = refl;
      limits = (refl, refl, refl);
      drops = drops_newest_iff config.queue_policy;
      metrics = refl;
    }

-- A publisher that was constructed and whose options are accepted hands its core a configuration that
-- the core's own check passes, for one camera or all four, with the frame rate of the options, and
-- with a rotation of a quarter turn more than they ask for, modulo a full turn.
pub accepted_core_config :
    (config : Config) (mapper : SensorTimestampMapperSnapshot)
    → construct false config ≡ ok mapper
    → validate_camera_options config.options ≡ ok tt
    → let core = core_config config in
      (validate_config core ≡ true)
      × ((enabled_camera_count core ≡ 1) ⊎ (enabled_camera_count core ≡ 4))
      × (pos core.fps ≡ config.options.fps)
      × ((k : ℕ) × (config.options.rotate_degrees ≡ pos (90 * k))
          × (core.rotation ≡ 90 * ((k + 1) % 4)))
unfolding core_config validate_config
accepted_core_config config mapper made accepted =
    let o = config.options in
    let supported = (validate_iff o).0 accepted in
    let mask = mask_ok o accepted in
    let (k, small, asked, turned, wide, high) = output_geometry o accepted in
    let geometry = positive_geometry o in
    (
      ground (
        arith,
        mask_valid o.camera_mask mask,
        constructed config mapper made,
        geometry,
        supported.timeout,
        supported.skew,
      ),
      counts (core_config config) mask,
      sym ((fps_cast o.fps supported.fps).1),
      (k, asked, cast_pos (internal_rotate_degrees o) (90 * ((k + 1) % 4)) turned (omega arith)),
    )
