-- ===== src/Node/Loaded.antt =====
-- What the parameters that the node accepts guarantee to the publishers.
use Prim.Native.String.{String, [], ◌∷◌}
use Prim.Native.Char.{code}
use text.Mathlib.Text.{◌==◌ as str_eq}
use robo_baton_4p_ros2_demo.Prelude.{
  ℕ, ◌^◌, ◌<◌, ◌≡◌, refl, sym, ap, ◌∙◌, subst, Bool, true, false, ◌&&◌, ◌||◌, some, ltb_ℤ, ◌==◌, ℤ,
  pos, negsuc, ok, Ensures, >>=-Ensures, any-Ensures, throw_if-Ensures, ok-Ensures, arith,
}
use robo_baton_4p_ros2_demo.Timestamp.{SensorTimestampMapperSnapshot, to_uint64}
use robo_baton_4p_ros2_demo.Timestamp.Offset.{IsInt64}
use robo_baton_4p_ros2_demo.Options.{Options, default_camera_mask, default_frame_set_max_skew_ns}
use robo_baton_4p_ros2_demo.Camera.Publish.{
  Config as CameraConfig, construct as construct_camera, to_uint32,
}
use robo_baton_4p_ros2_demo.Node.{
  Parameters, declare_uint64, declare_uint32, declare_size, parse_queue_policy, is_safe,
  check_run_id, load_rate_run_id, load_rate_log_period_ms, Settings, load_settings, load_options,
  load_camera_config,
}

-- What `declare_parameter<int64_t>` returns is an int64_t.
pub record ParameterLaws (p : Parameters) : Type 0 where
  pub fits :
      (name : String) (default_value : ℤ) → Ensures IsInt64 (p.declare_int64 name default_value)

-- All characters of a run ID can stand in a JSON string as they are.
unfoldable pub all_safe : String → Bool
all_safe [] = true
all_safe (value ∷ rest) = is_safe (code value) && all_safe rest

-- What the settings of the node guarantee.
pub record AreGood (settings : Settings) : Type 0 where
  pub period : settings.rate_metrics_enabled ≡ true → 0 < settings.rate_log_period_ms
  pub period_fits : settings.rate_log_period_ms < 2 ^ 32
  pub run_id : all_safe settings.rate_run_id ≡ true

declare_uint32-Ensures :
    (p : Parameters) (name : String) (d : ℕ) → Ensures (λ n. n < 2 ^ 32) (declare_uint32 p name d)
unfolding declare_uint32 Ensures
declare_uint32-Ensures p name d =
    any-Ensures (λ n. n < 2 ^ 32) (p.declare_int64 name _) _
      (λ value.
        throw_if-Ensures (λ n. n < 2 ^ 32) _ _ (ok (to_uint32 value))
          (λ small. ground (arith, small)))

declare_uint64-Ensures :
    (p : Parameters) (name : String) (d : ℕ)
    → ParameterLaws p
    → Ensures (λ n. n < 2 ^ 63) (declare_uint64 p name d)
unfolding declare_uint64 Ensures
declare_uint64-Ensures p name d laws =
    >>=-Ensures IsInt64 (λ n. n < 2 ^ 63) (p.declare_int64 name _) _ (laws.fits name _)
      (λ value small.
        throw_if-Ensures (λ n. n < 2 ^ 63) _ _ (ok (to_uint64 value))
          (λ positive. ground (arith, small, positive)))

declare_size-Ensures :
    (p : Parameters) (name : String) (d : ℕ)
    → ParameterLaws p
    → Ensures (λ n. (0 < n) × (n < 2 ^ 63)) (declare_size p name d)
unfolding declare_size Ensures
declare_size-Ensures p name d laws =
    >>=-Ensures IsInt64 (λ n. (0 < n) × (n < 2 ^ 63)) (p.declare_int64 name _) _ (laws.fits name _)
      (λ value small.
        throw_if-Ensures (λ n. (0 < n) × (n < 2 ^ 63)) _ _ (ok (to_uint64 value))
          (λ positive. ground (arith, small, positive)))

check_run_id-Ensures : (s : String) → Ensures (λ x. all_safe s ≡ true) (check_run_id s)
unfolding check_run_id all_safe Ensures
check_run_id-Ensures [] = refl
check_run_id-Ensures (value ∷ rest) = ground (arith, check_run_id-Ensures rest)

load_rate_run_id-Ensures : (p : Parameters) → Ensures (λ s. all_safe s ≡ true) (load_rate_run_id p)
unfolding load_rate_run_id
load_rate_run_id-Ensures p =
    any-Ensures (λ s. all_safe s ≡ true) (p.declare_string _ _) _
      (λ run_id.
        >>=-Ensures (λ x. all_safe run_id ≡ true) (λ s. all_safe s ≡ true) (check_run_id run_id) _
          (check_run_id-Ensures run_id) (λ x safe. ok-Ensures (λ s. all_safe s ≡ true) run_id safe))

load_rate_log_period_ms-Ensures :
    (p : Parameters) (enabled : Bool)
    → Ensures (λ n. (enabled ≡ true → 0 < n) × (n < 2 ^ 32)) (load_rate_log_period_ms p enabled)
unfolding load_rate_log_period_ms
load_rate_log_period_ms-Ensures p enabled =
    >>=-Ensures (λ n. n < 2 ^ 32) (λ n. (enabled ≡ true → 0 < n) × (n < 2 ^ 32))
      (declare_uint32 p "diagnostics.rate_log_period_ms" 1000) _
      (declare_uint32-Ensures p "diagnostics.rate_log_period_ms" 1000)
      (λ period small.
        throw_if-Ensures (λ n. (enabled ≡ true → 0 < n) × (n < 2 ^ 32)) (enabled && period == 0) _
          (ok period)
          (λ positive.
            ok-Ensures (λ n. (enabled ≡ true → 0 < n) × (n < 2 ^ 32)) period
              (λ e. ground (arith, e, positive), small)))

settings_ensured :
    (p : Parameters) (mapper : SensorTimestampMapperSnapshot)
    → Ensures AreGood (load_settings p mapper)
unfolding load_settings
settings_ensured p mapper = any-Ensures AreGood (p.declare_bool _ _) _ (λ camera.
    any-Ensures AreGood (p.declare_bool _ _) _ (λ imu.
      any-Ensures AreGood (p.declare_bool _ _) _ (λ enabled.
        >>=-Ensures (λ n. (enabled ≡ true → 0 < n) × (n < 2 ^ 32)) AreGood
          (load_rate_log_period_ms p enabled) _ (load_rate_log_period_ms-Ensures p enabled)
          (λ period positive.
            >>=-Ensures (λ s. all_safe s ≡ true) AreGood (load_rate_run_id p) _
              (load_rate_run_id-Ensures p)
              (λ run_id safe.
                ok-Ensures AreGood _
                  (record { period = positive.0; period_fits = positive.1; run_id = safe }))))))

-- Settings that load have a run ID of safe characters only, and a positive period of 32 bits if the
-- metrics are enabled.
pub load_settings-AreGood :
    (p : Parameters) (mapper : SensorTimestampMapperSnapshot) (settings : Settings)
    → load_settings p mapper ≡ ok settings
    → AreGood settings
unfolding Ensures
load_settings-AreGood p mapper settings h = subst (Ensures AreGood) h (settings_ensured p mapper)

-- What a configuration of the cameras guarantees.
pub record IsLoaded (settings : Settings) (config : CameraConfig) : Type 0 where
  pub mask_fits : config.options.camera_mask < 2 ^ 32
  pub skew_fits : config.options.frame_set_max_skew_ns < 2 ^ 63
  pub timeout_fits : config.options.frame_set_timeout_ms < 2 ^ 32
  pub capacity : (0 < config.queue_capacity) × (config.queue_capacity < 2 ^ 63)
  pub quality : (q : ℕ) × (config.compressed_jpeg_quality ≡ pos q) × (0 < q) × (q < 101)
  pub mapper : config.timestamp_mapper ≡ some settings.timestamp_mapper
  pub metrics : config.rate_metrics_enabled ≡ settings.rate_metrics_enabled
  pub period : config.rate_log_period_ms ≡ settings.rate_log_period_ms
  pub run_id : config.rate_run_id ≡ settings.rate_run_id

AreSized : Options → Type 0
AreSized o =
    (o.camera_mask < 2 ^ 32)
    × (o.frame_set_max_skew_ns < 2 ^ 63)
    × (o.frame_set_timeout_ms < 2 ^ 32)

load_options-Ensures : (p : Parameters) → ParameterLaws p → Ensures AreSized (load_options p)
unfolding load_options AreSized
load_options-Ensures p laws =
    >>=-Ensures (λ n. n < 2 ^ 32) AreSized
      (declare_uint32 p "camera.camera_mask" default_camera_mask) _
      (declare_uint32-Ensures p "camera.camera_mask" default_camera_mask)
      (λ mask mask_small. any-Ensures AreSized (p.declare_int _ _) _ (λ fps.
        any-Ensures AreSized (p.declare_int _ _) _ (λ rotation.
          >>=-Ensures (λ n. n < 2 ^ 63) AreSized
            (declare_uint64 p "camera.frame_set_max_skew_ns" default_frame_set_max_skew_ns) _
            (declare_uint64-Ensures p "camera.frame_set_max_skew_ns" default_frame_set_max_skew_ns
              laws)
            (λ skew skew_small.
              >>=-Ensures (λ n. n < 2 ^ 32) AreSized
                (declare_uint32 p "camera.frame_set_timeout_ms" 100) _
                (declare_uint32-Ensures p "camera.frame_set_timeout_ms" 100)
                (λ timeout timeout_small.
                  any-Ensures AreSized (p.declare_string _ _) _
                    (λ mode. ok-Ensures AreSized _ (mask_small, skew_small, timeout_small)))))))

quality_of :
    (q : ℤ)
    → (ltb_ℤ q (pos 1) || ltb_ℤ (pos 100) q) ≡ false
    → (n : ℕ) × (q ≡ pos n) × (0 < n) × (n < 101)
quality_of (pos n) h = (n, refl, ground (arith, h), ground (arith, h))
quality_of (negsuc n) h = absurd (ground (arith, h))

config_ensured :
    (p : Parameters) (settings : Settings)
    → ParameterLaws p
    → Ensures (IsLoaded settings) (load_camera_config p settings)
unfolding load_camera_config AreSized
config_ensured p settings laws =
    let Q = IsLoaded settings in
    >>=-Ensures AreSized Q (load_options p) _ (load_options-Ensures p laws) (λ options sized.
      >>=-Ensures (λ n. (0 < n) × (n < 2 ^ 63)) Q (declare_size p "camera.queue_capacity" 4) _
        (declare_size-Ensures p "camera.queue_capacity" 4 laws)
        (λ capacity large. any-Ensures Q (p.declare_string _ _) _ (λ policy.
          any-Ensures Q (parse_queue_policy policy) _ (λ queue_policy.
            any-Ensures Q (p.declare_bool _ _) _ (λ info.
              any-Ensures Q (p.declare_string _ _) _ (λ encoding.
                any-Ensures Q (p.declare_bool _ _) _ (λ compressed.
                  any-Ensures Q (p.declare_int _ _) _ (λ quality.
                    throw_if-Ensures Q (ltb_ℤ quality (pos 1) || ltb_ℤ (pos 100) quality) _ _
                      (λ in_range. any-Ensures Q (p.declare_string _ _) _ (λ prefix.
                        ok-Ensures Q _ (record {
                          mask_fits = sized.0;
                          skew_fits = sized.1;
                          timeout_fits = sized.2;
                          capacity = large;
                          quality = quality_of quality in_range;
                          mapper = refl;
                          metrics = refl;
                          period = refl;
                          run_id = refl;
                        })))))))))))

constructs :
    (settings : Settings) (config : CameraConfig)
    → AreGood settings
    → IsLoaded settings config
    → str_eq config.image_encoding "nv12" ≡ true
    → construct_camera false config ≡ ok settings.timestamp_mapper
unfolding construct_camera
constructs settings config good loaded encoded =
    let (q, quality, low, high) = loaded.quality in
    let period : config.rate_metrics_enabled ≡ true → 0 < config.rate_log_period_ms =
      λ e. subst (λ n. 0 < n) (sym loaded.period) (good.period (sym loaded.metrics ∙ e)) in
    ground (arith, loaded.mapper, loaded.capacity, quality, low, high, period, encoded)

pub load_camera_config-IsLoaded :
    (p : Parameters) (settings : Settings) (config : CameraConfig)
    → ParameterLaws p
    → load_camera_config p settings ≡ ok config
    → IsLoaded settings config
unfolding Ensures
load_camera_config-IsLoaded p settings config laws h =
    subst (Ensures (IsLoaded settings)) h (config_ensured p settings laws)

-- If the node's settings and the configuration of the cameras load, with values of `declare_parameter`
-- that fit int64_t, then the configuration has a mask and a timeout of 32 bits, a positive capacity and
-- a quality from 1 to 100, and a run ID of safe characters only; and the constructor of the publisher
-- accepts it, provided that its encoding is nv12.
pub camera_config_accepted :
    (p : Parameters) (mapper : SensorTimestampMapperSnapshot) (settings : Settings)
    (config : CameraConfig)
    → ParameterLaws p
    → load_settings p mapper ≡ ok settings
    → load_camera_config p settings ≡ ok config
    → str_eq config.image_encoding "nv12" ≡ true
    → IsLoaded settings config
      × (all_safe config.rate_run_id ≡ true)
      × (construct_camera false config ≡ ok settings.timestamp_mapper)
camera_config_accepted p mapper settings config laws h k encoded =
    let loaded = load_camera_config-IsLoaded p settings config laws k in
    let good = load_settings-AreGood p mapper settings h in
    (
      loaded,
      ap all_safe loaded.run_id ∙ good.run_id,
      constructs settings config good loaded encoded,
    )
